-- ===== src/Master/Reports.antt =====
-- What the handler of SIGCHLD in master.c makes of the reports of waitpid.
use system_fundamentals_ii_c.Prelude.{
  Bool, List, Option-cases, [], ap, arith, false, if◌then◌else◌, inl, inr, none, some, suc, sym,
  true, zero, ℕ, ◌+◌, ◌<◌, ◌==◌, ◌||◌, ◌∙◌, ◌∷◌, ◌≡◌, ◌≢◌, ◌≤◌,
}
use system_fundamentals_ii_c.Master.{
  Master, Status, WorkerState, index_from, next_state, reap, report, sig_master_handler, sigchld,
}

-- Every worker has a pid of its own.
unfoldable pub HasOwnPids : Master → Type 0
HasOwnPids m = (i j : ℕ) → i < m.workers → j < m.workers → m.children i ≡ m.children j → i ≡ j

-- One worker alone: what a report makes of its state, and what all the reports on its pid make of it.
unfoldable pub step : Status → WorkerState → WorkerState
step status old = elim (next_state status old) [ none ↦ old | some new ↦ new ]

unfoldable pub follow : ℕ → List (ℕ × Status) → WorkerState → WorkerState
unfolding step
follow child [] st = st
follow child ((pid, status) ∷ reports) st =
    if pid == child then follow child reports (step status st) else follow child reports st

pub index_from_found :
    (children : ℕ → ℕ) (n j pid i : ℕ)
    → index_from children n j pid ≡ some i
    → (children i ≡ pid) × (i < j + n)
unfolding index_from
index_from_found children zero j pid i e = absurd (ground arith)
index_from_found children (suc n) j pid i e =
    ground (arith, index_from_found children n (j + 1) pid i)

index_from_absent :
    (children : ℕ → ℕ) (n j pid k : ℕ)
    → index_from children n j pid ≡ none
    → j ≤ k
    → k < j + n
    → children k ≢ pid
unfolding index_from
index_from_absent children zero j pid k e low high = absurd (omega arith)
index_from_absent children (suc n) j pid k e low high =
    ground (arith, index_from_absent children n (j + 1) pid k)

-- A report changes the worker with that pid, and no other one.
report-step :
    (pid : ℕ) (status : Status) (m : Master) (j : ℕ)
    → HasOwnPids m
    → j < m.workers
    → (report (pid, status) m).worker_states j
      ≡ (if pid == m.children j then step status (m.worker_states j) else m.worker_states j)
unfolding report step HasOwnPids
report-step pid status m j own below = elim (Option-cases (index_from m.children m.workers 0 pid)) [
  | inl absent ↦ ground (
    arith,
    absent,
    index_from_absent m.children m.workers 0 pid j absent (omega arith) (omega arith),
  )
  | inr (i, found) ↦
      ground (arith, found, index_from_found m.children m.workers 0 pid i found, own i j)
]

pub report_keeps :
    (pid : ℕ) (status : Status) (m : Master)
    → ((report (pid, status) m).workers ≡ m.workers)
      × ((report (pid, status) m).children ≡ m.children)
unfolding report
report_keeps pid status m = ground arith

-- The same of the flag: it is set, or as it was.
report-flag :
    (pid : ℕ) (status : Status) (m : Master) (j : ℕ)
    → HasOwnPids m
    → j < m.workers
    → (report (pid, status) m).sigchld_flag j
      ≡ (if pid == m.children j then true else m.sigchld_flag j)
unfolding report HasOwnPids
report-flag pid status m j own below = elim (Option-cases (index_from m.children m.workers 0 pid)) [
  | inl absent ↦ ground (
    arith,
    absent,
    index_from_absent m.children m.workers 0 pid j absent (omega arith) (omega arith),
  )
  | inr (i, found) ↦
      ground (arith, found, index_from_found m.children m.workers 0 pid i found, own i j)
]

pub HasOwnPids-report :
    (pid : ℕ) (status : Status) (m : Master) → HasOwnPids m → HasOwnPids (report (pid, status) m)
unfolding HasOwnPids
HasOwnPids-report pid status m own i j hi hj e =
    let (workers, children) = report_keeps pid status m in
    own i j (omega (arith, workers)) (omega (arith, workers))
      (sym (ap (λ f. f i) children) ∙ e ∙ ap (λ f. f j) children)

-- Whether a report on the pid is among the reports.
unfoldable pub is_reported : ℕ → List (ℕ × Status) → Bool
is_reported child [] = false
is_reported child ((pid, status) ∷ reports) =
    if pid == child then true else is_reported child reports

-- The handler of SIGCHLD, with workers that have pids of their own: the state of each worker is what
-- the reports on its own pid make of it, one after the other, and its flag is set if there is such a
-- report and else as it was.
pub sig_master_handler-follow :
    (reports : List (ℕ × Status)) (m : Master) (j : ℕ)
    → HasOwnPids m
    → j < m.workers
    → ((sig_master_handler (sigchld reports) m).worker_states j
        ≡ follow (m.children j) reports (m.worker_states j))
      × ((sig_master_handler (sigchld reports) m).sigchld_flag j
          ≡ (m.sigchld_flag j || is_reported (m.children j) reports))
unfolding sig_master_handler reap follow is_reported
sig_master_handler-follow [] m j own below = ground arith
sig_master_handler-follow ((pid, status) ∷ reports) m j own below =
    let (workers, children) = report_keeps pid status m in
    let (states, flags) =
      sig_master_handler-follow reports (report (pid, status) m) j
        (HasOwnPids-report pid status m own) (omega (arith, workers)) in
    ground (
      arith,
      states,
      flags,
      ap (λ f. f j) children,
      report-step pid status m j own below,
      report-flag pid status m j own below,
    )
