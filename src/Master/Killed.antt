-- ===== src/Master/Killed.antt =====
-- A worker that a signal ends, in master.c: the handler of SIGCHLD passes over it.
use system_fundamentals_ii_c.Prelude.{
  Bool, List, [], arith, false, if◌then◌else◌, refl, subst, sym, true, ℕ, ◌<◌, ◌==◌, ◌∙◌, ◌∷◌, ◌≡◌,
}
use system_fundamentals_ii_c.Master.{
  Master, Signal, Status, WorkerState, finish, has_continued, has_ended, has_exited, has_stopped,
  reap, report, sig_master_handler, sigchld, sigpipe, waits, was_killed,
}
use system_fundamentals_ii_c.Master.Ending.{count_ended-few, finish-few, finish-none}
use system_fundamentals_ii_c.Master.Reports.{
  HasOwnPids, HasOwnPids-report, follow, report_keeps, sig_master_handler-follow, step,
}

-- No report on the pid says that it exited, stopped or went on.
unfoldable pub only_killed : ℕ → List (ℕ × Status) → Bool
only_killed child [] = true
only_killed child ((pid, has_exited code) ∷ reports) =
    if pid == child then false else only_killed child reports
only_killed child ((pid, has_stopped) ∷ reports) =
    if pid == child then false else only_killed child reports
only_killed child ((pid, has_continued) ∷ reports) =
    if pid == child then false else only_killed child reports
only_killed child ((pid, was_killed) ∷ reports) = only_killed child reports

unfoldable pub AllKilled : ℕ → List Signal → Type 0
AllKilled child [] = Unit
AllKilled child (sigchld reports ∷ signals) =
    (only_killed child reports ≡ true) × AllKilled child signals
AllKilled child (sigpipe ∷ signals) = AllKilled child signals

follow-only_killed :
    (child : ℕ) (reports : List (ℕ × Status)) (st : WorkerState)
    → only_killed child reports ≡ true
    → follow child reports st ≡ st
unfolding follow only_killed step
follow-only_killed child [] st h = refl
follow-only_killed child ((pid, has_exited code) ∷ reports) st h =
    ground (arith, follow-only_killed child reports st)
follow-only_killed child ((pid, has_stopped) ∷ reports) st h =
    ground (arith, follow-only_killed child reports st)
follow-only_killed child ((pid, has_continued) ∷ reports) st h =
    ground (arith, follow-only_killed child reports st)
follow-only_killed child ((pid, was_killed) ∷ reports) st h =
    ground (arith, follow-only_killed child reports st)

reap_keeps :
    (reports : List (ℕ × Status)) (m : Master)
    → HasOwnPids m
    → ((reap reports m).workers ≡ m.workers)
      × ((reap reports m).children ≡ m.children)
      × HasOwnPids (reap reports m)
unfolding reap
reap_keeps [] m own = (refl, refl, own)
reap_keeps ((pid, status) ∷ reports) m own =
    let (workers, children) = report_keeps pid status m in
    let (w, c, o) =
      reap_keeps reports (report (pid, status) m) (HasOwnPids-report pid status m own) in
    (w ∙ workers, c ∙ children, o)

-- If a worker has not ended, and every later report on it says that a signal has killed it, then
-- master waits for ever: a worker that is killed counts neither as exited nor as aborted.
pub finish_killed :
    (signals : List Signal) (m : Master) (j : ℕ)
    → HasOwnPids m
    → j < m.workers
    → has_ended (m.worker_states j) ≡ false
    → AllKilled (m.children j) signals
    → finish signals m ≡ waits
unfolding AllKilled sig_master_handler HasOwnPids
finish_killed [] m j own below alive killed = finish-none m (count_ended-few m j below alive)
finish_killed (sigchld reports ∷ signals) m j own below alive (now, later) =
    let (w, c, o) = reap_keeps reports m own in
    let (states, flags) = sig_master_handler-follow reports m j own below in
    finish-few (sigchld reports) signals m (count_ended-few m j below alive)
    ∙ finish_killed signals (sig_master_handler (sigchld reports) m) j o (omega (arith, w))
        (ground (arith, states, follow-only_killed (m.children j) reports (m.worker_states j) now))
        (subst (λ f. AllKilled (f j) signals) (sym c) later)
finish_killed (sigpipe ∷ signals) m j own below alive later =
    finish-few sigpipe signals m (count_ended-few m j below alive)
    ∙ finish_killed signals (sig_master_handler sigpipe m) j own below alive later
