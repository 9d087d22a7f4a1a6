-- ===== src/Worker/Ended.antt =====
-- HW4-Multi-process-Problem-Solver/src/master.c and src/worker.c: the master makes the workers exit.
use system_fundamentals_ii_c.Prelude.{
  Bool, Bool-cases, List, Option, [], ap, arith, if◌then◌else◌, inl, inr, refl, suc, true, zero, ℕ,
  ◌++◌, ◌+◌, ◌<◌, ◌==◌, ◌∙◌, ◌∷◌, ◌≡◌, ◌≢◌, ◌≤◌,
}
use system_fundamentals_ii_c.Master.Problems.{Answer, Problem}
use system_fundamentals_ii_c.Worker.{
  Event, WorkerSignal, arrives, gone, run, sigcont, sigterm, start, tick,
}
use system_fundamentals_ii_c.Worker.Invariant.{IsFree}
use system_fundamentals_ii_c.Worker.Rounds.{run_gone}

-- The loop behind the main loop, from `i` on: the calls of kill(), with the pid and the signal.
unfoldable pub terminate_from : (children : ℕ → ℕ) (rounds i : ℕ) → List (ℕ × WorkerSignal)
terminate_from children zero i = []
terminate_from children (suc n) i =
    (children i, sigterm) ∷ (children i, sigcont) ∷ terminate_from children n (i + 1)

-- What arrives at the process with a pid.
unfoldable pub arriving : (pid : ℕ) → List (ℕ × WorkerSignal) → List Event
arriving pid [] = []
arriving pid ((receiver, signal) ∷ signals) =
    let rest = arriving pid signals in if receiver == pid then arrives signal ∷ rest else rest

arriving_nothing :
    (children : ℕ → ℕ) (pid n i : ℕ)
    → ((j : ℕ) → i ≤ j → j < i + n → children j ≢ pid)
    → arriving pid (terminate_from children n i) ≡ []
unfolding arriving terminate_from
arriving_nothing children pid zero i other = refl
arriving_nothing children pid (suc n) i other =
    let ih =
      arriving_nothing children pid n (i + 1)
        (λ j low high. other j (omega (arith, low)) (omega (arith, high))) in
    ground (arith, other i (omega arith) (omega arith), ih)

-- Each worker gets SIGTERM and then SIGCONT.
terminate_from-arriving :
    (children : ℕ → ℕ) (workers n i k : ℕ)
    → ((i j : ℕ) → i < workers → j < workers → children i ≡ children j → i ≡ j)
    → i + n ≡ workers
    → i ≤ k
    → k < workers
    → arriving (children k) (terminate_from children n i) ≡ arrives sigterm ∷ arrives sigcont ∷ []
unfolding arriving terminate_from
terminate_from-arriving children workers zero i k own all low high =
    absurd (omega (arith, all, low, high))
terminate_from-arriving children workers (suc n) i k own all low high =
    elim (Bool-cases (children i == children k)) [
      | inl here ↦
          let same : i ≡ k = own i k (omega (arith, all)) high (ground (arith, here)) in
          ground (
            arith,
            here,
            arriving_nothing children (children k) n (i + 1) (λ j after before e.
                absurd (omega (arith, after, same, own j k (omega (arith, before, all)) high e))),
          )
      | inr other ↦
          let later : i < k = elim (Bool-cases (i == k)) [
            | inl here ↦ absurd (ground (arith, other, here))
            | inr apart ↦ ground (arith, apart, low)
          ] in
          ground (
            arith,
            other,
            terminate_from-arriving children workers n (i + 1) k own (omega (arith, all))
                (omega (arith, later)) high,
          )
    ]

module _ (solve : Problem → Bool → Option Answer) (check : Answer → Problem → Bool) where
  -- All workers exit: when the main loop has ended, the signals that the master sends make each worker
  -- that has stopped itself exit after two steps, whatever has happened to it before. The workers have
  -- pids of their own, and nobody but the worker itself sends SIGSTOP.
  pub terminate-gone :
      (children : ℕ → ℕ) (workers k : ℕ) (events : List Event)
      → ((i j : ℕ) → i < workers → j < workers → children i ≡ children j → i ≡ j)
      → k < workers
      → IsFree events
      → (run solve check events start).is_stopped ≡ true
      → (run solve check
          (arriving (children k) (terminate_from children workers 0) ++ (tick ∷ tick ∷ []))
          (run solve check events start)).place
        ≡ gone
  terminate-gone children workers k events own inside free stop =
      ap
        (λ sent.
          (run solve check (sent ++ (tick ∷ tick ∷ [])) (run solve check events start)).place)
        (terminate_from-arriving children workers workers 0 k own (omega arith) (omega arith)
          inside)
      ∙ run_gone solve check events free stop
