-- ===== src/Master/Ending.antt =====
-- How the master of master.c ends.
use system_fundamentals_ii_c.Prelude.{
  Bool, Bool-cases, List, [], ap, arith, false, inl, inr, length, refl, subst, suc, sym, take, true,
  zero, ℕ, ◌+◌, ◌<◌, ◌∙◌, ◌∷◌, ◌≡◌, ◌≢◌, ◌≤◌, ◌⊎◌,
}
use system_fundamentals_ii_c.Master.{
  ExitCode, Master, Signal, WorkerState, aborted, all_exited_from, count_ended, ending,
  exit_failure, exit_success, exited, finish, has_ended, is_exited, sig_master_handler, waits,
}

-- All the signals of a list, handled one after the other.
pub handle_all : List Signal → Master → Master
handle_all [] m = m
handle_all (signal ∷ signals) m = handle_all signals (sig_master_handler signal m)

-- What the exit code says of the workers: all have exited; all have ended and one was aborted; one has
-- not ended.
abbrev pub Tells : ExitCode → Master → Type 0
Tells exit_success m = (j : ℕ) → j < m.workers → m.worker_states j ≡ exited
Tells exit_failure m =
    ((j : ℕ) → j < m.workers → has_ended (m.worker_states j) ≡ true)
    × ((j : ℕ) × (j < m.workers) × (m.worker_states j ≡ aborted))
Tells waits m = (j : ℕ) × (j < m.workers) × (has_ended (m.worker_states j) ≡ false)

count_ended_le : (states : ℕ → WorkerState) (n i : ℕ) → count_ended states n i ≤ n
unfolding count_ended
count_ended_le states zero i = omega arith
count_ended_le states (suc n) i = ground (arith, count_ended_le states n (i + 1))

count_ended-all :
    (states : ℕ → WorkerState) (n i k : ℕ)
    → n ≤ count_ended states n i
    → i ≤ k
    → k < i + n
    → has_ended (states k) ≡ true
unfolding count_ended
count_ended-all states zero i k h low high = absurd (omega arith)
count_ended-all states (suc n) i k h low high =
    ground (arith, count_ended_le states n (i + 1), count_ended-all states n (i + 1) k)

count_ended-missing :
    (states : ℕ → WorkerState) (n i : ℕ)
    → count_ended states n i < n
    → (k : ℕ) × (i ≤ k) × (k < i + n) × (has_ended (states k) ≡ false)
unfolding count_ended
count_ended-missing states zero i h = absurd (omega arith)
count_ended-missing states (suc n) i h = elim (Bool-cases (has_ended (states i))) [
  | inl ended ↦
      let (k, low, high, missing) = count_ended-missing states n (i + 1) (ground (arith, ended)) in
      (k, omega arith, omega arith, missing)
  | inr missing ↦ (i, omega arith, omega arith, missing)
]

all_exited-true :
    (states : ℕ → WorkerState) (n i k : ℕ)
    → all_exited_from states n i ≡ true
    → i ≤ k
    → k < i + n
    → states k ≡ exited
unfolding all_exited_from
all_exited-true states zero i k h low high = absurd (omega arith)
all_exited-true states (suc n) i k h low high = ground (arith, all_exited-true states n (i + 1) k)

all_exited-false :
    (states : ℕ → WorkerState) (n i : ℕ)
    → all_exited_from states n i ≡ false
    → ((k : ℕ) → i ≤ k → k < i + n → has_ended (states k) ≡ true)
    → (k : ℕ) × (i ≤ k) × (k < i + n) × (states k ≡ aborted)
unfolding all_exited_from
all_exited-false states zero i h ended = absurd (ground arith)
all_exited-false states (suc n) i h ended = elim (Bool-cases (is_exited (states i))) [
  | inl good ↦
      let (k, low, high, bad) =
        all_exited-false states n (i + 1) (ground (arith, good))
          (λ k low high. ended k (omega arith) (omega arith)) in
      (k, omega arith, omega arith, bad)
  | inr bad ↦
      (i, omega arith, omega arith, ground (arith, bad, ended i (omega arith) (omega arith)))
]

-- The verdict once all workers have ended.
ending-Tells :
    (m : Master) (b : Bool)
    → m.workers ≤ count_ended m.worker_states m.workers 0
    → all_exited_from m.worker_states m.workers 0 ≡ b
    → Tells (ending b) m
ending-Tells m true enough e =
    λ j below. all_exited-true m.worker_states m.workers 0 j e (omega arith) (omega arith)
ending-Tells m false enough e =
    let all = λ (k : ℕ) (low : 0 ≤ k) (high : k < 0 + m.workers).
      count_ended-all m.worker_states m.workers 0 k enough low high in
    let (k, low, high, bad) = all_exited-false m.worker_states m.workers 0 e all in
    ((λ j below. all j (omega arith) (omega arith)), (k, omega arith, bad))

missing-Tells : (m : Master) → count_ended m.worker_states m.workers 0 < m.workers → Tells waits m
missing-Tells m few =
    let (k, low, high, missing) = count_ended-missing m.worker_states m.workers 0 few in
    (k, omega arith, missing)

enough-cases : (n c : ℕ) → (n ≤ c) ⊎ (c < n)
enough-cases n c = ground arith

pub count_ended-few :
    (m : Master) (j : ℕ)
    → j < m.workers
    → has_ended (m.worker_states j) ≡ false
    → count_ended m.worker_states m.workers 0 < m.workers
count_ended-few m j below alive =
    elim (enough-cases m.workers (count_ended m.worker_states m.workers 0)) [
      | inl enough ↦ absurd (
          ground (
            arith,
            alive,
            count_ended-all m.worker_states m.workers 0 j enough (omega arith) (omega arith),
          ))
      | inr few ↦ few
    ]

finish-enough :
    (signals : List Signal) (m : Master)
    → m.workers ≤ count_ended m.worker_states m.workers 0
    → finish signals m ≡ ending (all_exited_from m.worker_states m.workers 0)
unfolding finish
finish-enough [] m enough = ground (arith, enough)
finish-enough (signal ∷ signals) m enough = ground (arith, enough)

pub finish-few :
    (signal : Signal) (signals : List Signal) (m : Master)
    → count_ended m.worker_states m.workers 0 < m.workers
    → finish (signal ∷ signals) m ≡ finish signals (sig_master_handler signal m)
unfolding finish
finish-few signal signals m few = ground (arith, few)

pub finish-none :
    (m : Master) → count_ended m.worker_states m.workers 0 < m.workers → finish [] m ≡ waits
unfolding finish
finish-none m few = ground (arith, few)

ending-waits : (b : Bool) → ending b ≢ waits
ending-waits true e = absurd (ground arith)
ending-waits false e = absurd (ground arith)

-- At the end of master, the exit code says what the workers have come to after the first `k` signals:
-- EXIT_SUCCESS, that all have exited with 0; EXIT_FAILURE, that all have ended and one of them was
-- aborted. It waits for ever only where one has not ended after all the signals.
pub finish-Tells :
    (signals : List Signal) (m : Master)
    → (k : ℕ) × Tells (finish signals m) (handle_all (take k signals) m)
      × (finish signals m ≡ waits → k ≡ length signals)
unfolding handle_all
finish-Tells [] m = elim (enough-cases m.workers (count_ended m.worker_states m.workers 0)) [
  | inl enough ↦ (
    0,
    subst (λ code. Tells code m) (sym (finish-enough [] m enough)) (ending-Tells m _ enough refl),
    λ e. refl,
  )
  | inr few ↦
      (0, subst (λ code. Tells code m) (sym (finish-none m few)) (missing-Tells m few), λ e. refl)
]
finish-Tells (signal ∷ signals) m =
    elim (enough-cases m.workers (count_ended m.worker_states m.workers 0)) [
      | inl enough ↦ (
        0,
        subst (λ code. Tells code m) (sym (finish-enough (signal ∷ signals) m enough))
            (ending-Tells m _ enough refl),
        λ e. absurd (ending-waits _ (sym (finish-enough (signal ∷ signals) m enough) ∙ e)),
      )
      | inr few ↦
          let (k, told, all) = finish-Tells signals (sig_master_handler signal m) in
          (
            suc k,
            subst (λ code. Tells code (handle_all (take k signals) (sig_master_handler signal m)))
                (sym (finish-few signal signals m few)) told,
            λ e. ap suc (all (sym (finish-few signal signals m few) ∙ e)),
          )
    ]
