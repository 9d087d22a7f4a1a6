-- ===== src/Master/Turns.antt =====
-- HW4-Multi-process-Problem-Solver/src/master.c: invariants of the main loop.
use system_fundamentals_ii_c.Prelude.{
  Bool, List, Option, [], arith, false, if◌then◌else◌, none, refl, some, subst, suc, true, zero, ℕ,
  ◌+◌, ◌<◌, ◌∷◌, ◌≡◌, ◌≤◌,
}
use system_fundamentals_ii_c.Master.{
  Signal, WorkerState, aborted, continued, exited, idle, running, sig_master_handler, started,
  stopped, update,
}
use system_fundamentals_ii_c.Master.Loop.{
  Loop, Main, after_collect, assign_prob_to_worker, breaks, change_to, clear_flag, clear_sigpipe,
  draws_forever, fails, handed, is_done, main_loop, reads_memory, suspends, visit, visit_from,
  visit_state,
}
use system_fundamentals_ii_c.Master.Problems.{
  Answer, Reply, SolverMethods, Source, get_problem_variant, gives, reads_freed, still_running,
}
use system_fundamentals_ii_c.Master.Rounds.{Pool, collect}

-- A property of the state that each operation of the loop keeps.
pub record IsKept (solvers : ℕ → SolverMethods) (P : Loop → Type 0) : Type 0 where
  pub by_change :
      (old new : WorkerState) (i : ℕ) (l : Loop)
      → i < l.master.workers
      → old ≡ l.master.worker_states i
      → P l
      → P (change_to old new i l)
  pub by_flag : (i : ℕ) (l : Loop) → P l → P (clear_flag i l)
  pub by_sigpipe : (l : Loop) → P l → P (clear_sigpipe l)
  pub by_signal :
      (signal : Signal) (l : Loop)
      → P l
      → P (record l { master = sig_master_handler signal l.master })
  pub by_nothing :
      (i : ℕ) (l : Loop)
      → P l
      → P (record l {
        pool = record l.pool { current_problems = update l.pool.current_problems i none };
        no_more_problems = update l.no_more_problems i 1;
      })
  pub by_problem :
      (i p : ℕ) (l : Loop)
      → P l
      → P (record l {
        pool = record l.pool { current_problems = update l.pool.current_problems i (some p) };
        no_more_problems = update l.no_more_problems i 0;
        sent = (i, p) ∷ l.sent;
        resumed = i ∷ l.resumed;
      })
  pub by_collect :
      (i : ℕ) (answer : Answer) (l : Loop) (s s' : Source) (pool : Pool)
      → collect solvers l.master.workers i answer l.pool s ≡ gives pool s'
      → P l
      → P (record l { pool = pool })

-- What the main loop leaves.
abbrev pub Leaves : (P : Loop → Type 0) → Main → Type 0
Leaves P (breaks l s) = P l
Leaves P (suspends l s) = P l
Leaves P fails = Unit
Leaves P reads_memory = Unit
Leaves P draws_forever = Unit

-- A turn of the loop, by what the visits leave and what comes behind it.
abbrev pub turn_of : Reply (Option Loop) → (Loop → Source → Main) → Main
turn_of reply rest = elim reply [
  | reads_freed ↦ reads_memory
  | still_running ↦ draws_forever
  | gives none s' ↦ fails
  | gives (some l') s' ↦ let next = rest l' s' in if is_done l' then breaks l' s' else next
]

module _ (solvers : ℕ → SolverMethods) (fuel : ℕ) (P : Loop → Type 0) (ops : IsKept solvers P) where
  record Keeps (workers : ℕ) (l : Loop) : Type 0 where
    as_many : l.master.workers ≡ workers
    still : P l

  -- What a part of the loop leaves.
  abbrev Kept : (workers : ℕ) → Reply (Option Loop) → Type 0
  Kept workers (gives (some l) s) = Keeps workers l
  Kept workers (gives none s) = Unit
  Kept workers reads_freed = Unit
  Kept workers still_running = Unit

  handed-Kept :
      (i : ℕ) (l : Loop) (reply : Reply (Option ℕ))
      → i < l.master.workers
      → P l
      → Kept l.master.workers (handed i l reply)
  handed-Kept i l reads_freed below holds = tt
  handed-Kept i l still_running below holds = tt
  handed-Kept i l (gives none s) below holds = record {
    as_many = refl;
    still = ops.by_nothing i l holds;
  }
  handed-Kept i l (gives (some p) s) below holds = record {
    as_many = refl;
    still =
        ops.by_problem i p (change_to (l.master.worker_states i) continued i l)
          (ops.by_change (l.master.worker_states i) continued i l below refl holds);
  }

  after_collect-Kept :
      (i : ℕ) (answer : Answer) (l : Loop) (s : Source) (reply : Reply Pool)
      → i < l.master.workers
      → stopped ≡ l.master.worker_states i
      → collect solvers l.master.workers i answer l.pool s ≡ reply
      → P l
      → Kept l.master.workers (after_collect solvers fuel i l reply)
  unfolding after_collect assign_prob_to_worker
  after_collect-Kept i answer l s reads_freed below is posted holds = tt
  after_collect-Kept i answer l s still_running below is posted holds = tt
  after_collect-Kept i answer l s (gives pool s') below is posted holds =
      let l' = record l { pool = pool } in
      handed-Kept i (change_to stopped idle i l')
        (get_problem_variant solvers fuel l.master.workers i s') below
        (ops.by_change stopped idle i l' below is
          (ops.by_collect i answer l s s' pool posted holds))

  visit_state-Kept :
      (st : WorkerState) (i : ℕ) (answer : Answer) (l : Loop) (s : Source)
      → i < l.master.workers
      → st ≡ l.master.worker_states i
      → P l
      → Kept l.master.workers (visit_state solvers fuel st i answer l s)
  unfolding visit_state assign_prob_to_worker
  visit_state-Kept continued i answer l s below is holds = record { as_many = refl; still = holds }
  visit_state-Kept started i answer l s below is holds = record {
    as_many = refl;
    still = ops.by_change started idle i l below is holds;
  }
  visit_state-Kept idle i answer l s below is holds =
      handed-Kept i l (get_problem_variant solvers fuel l.master.workers i s) below holds
  visit_state-Kept running i answer l s below is holds = record { as_many = refl; still = holds }
  visit_state-Kept stopped i answer l s below is holds =
      after_collect-Kept i answer l s (collect solvers l.master.workers i answer l.pool s) below is
        refl holds
  visit_state-Kept aborted i answer l s below is holds = tt
  visit_state-Kept exited i answer l s below is holds = record { as_many = refl; still = holds }

  visit-Kept :
      (i : ℕ) (answer : Answer) (l : Loop) (s : Source) (flag : Bool)
      → i < l.master.workers
      → P l
      → Kept l.master.workers (
          if flag
          then visit_state solvers fuel (l.master.worker_states i) i answer (clear_flag i l) s
          else gives (some l) s)
  visit-Kept i answer l s false below holds = record { as_many = refl; still = holds }
  visit-Kept i answer l s true below holds =
      visit_state-Kept (l.master.worker_states i) i answer (clear_flag i l) s below refl
        (ops.by_flag i l holds)

  -- The rest of the loop over the workers, by what the visit of one leaves.
  abbrev visit_rest : (n i : ℕ) (answers : ℕ → Answer) → Reply (Option Loop) → Reply (Option Loop)
  visit_rest n i answers reply = elim reply [
    | reads_freed ↦ reads_freed
    | still_running ↦ still_running
    | gives none s' ↦ gives none s'
    | gives (some l') s' ↦ visit_from solvers fuel n i answers l' s'
  ]

  visit_from-Kept :
      (n i : ℕ) (answers : ℕ → Answer) (l : Loop) (s : Source)
      → i + n ≤ l.master.workers
      → P l
      → Kept l.master.workers (visit_from solvers fuel n i answers l s)
  unfolding visit_from visit
  visit_from-Kept zero i answers l s inside holds = record { as_many = refl; still = holds }
  visit_from-Kept (suc n) i answers l s inside holds =
      rest (visit solvers fuel i (answers i) l s)
        (visit-Kept i (answers i) l s (l.master.sigchld_flag i) (omega (arith, inside)) holds)
        (λ l' s' kept.
          visit_from-Kept n (i + 1) answers l' s' (omega (arith, inside, kept.as_many)) kept.still)
    where
      rest :
          (reply : Reply (Option Loop))
          → Kept l.master.workers reply
          → ((l' : Loop) (s' : Source)
              → Keeps l.master.workers l'
              → Kept l'.master.workers (visit_from solvers fuel n (i + 1) answers l' s'))
          → Kept l.master.workers (visit_rest n (i + 1) answers reply)
      rest reads_freed kept ih = tt
      rest still_running kept ih = tt
      rest (gives none s') kept ih = tt
      rest (gives (some l') s') kept ih =
          subst (λ w. Kept w (visit_from solvers fuel n (i + 1) answers l' s')) kept.as_many
            (ih l' s' kept)

  ended-Leaves :
      (l : Loop) (s : Source) (done : Bool) (rest : Main)
      → P l
      → Leaves P rest
      → Leaves P (if done then breaks l s else rest)
  ended-Leaves l s true rest holds h = holds
  ended-Leaves l s false rest holds h = h

  turn_of-Leaves :
      (workers : ℕ) (reply : Reply (Option Loop)) (rest : Loop → Source → Main)
      → Kept workers reply
      → ((l : Loop) (s : Source) → P l → Leaves P (rest l s))
      → Leaves P (turn_of reply rest)
  turn_of-Leaves workers reads_freed rest kept h = tt
  turn_of-Leaves workers still_running rest kept h = tt
  turn_of-Leaves workers (gives none s) rest kept h = tt
  turn_of-Leaves workers (gives (some l) s) rest kept h =
      ended-Leaves l s (is_done l) (rest l s) kept.still (h l s kept.still)

  visits-Kept :
      (answers : ℕ → Answer) (l : Loop) (s : Source)
      → P l
      → Kept l.master.workers
          (visit_from solvers fuel l.master.workers 0 answers (clear_sigpipe l) s)
  visits-Kept answers l s holds =
      visit_from-Kept l.master.workers 0 answers (clear_sigpipe l) s (omega arith)
        (ops.by_sigpipe l holds)

  -- The property holds when the loop ends or is suspended, if it holds at the start.
  pub main_loop-Leaves :
      (answers : ℕ → Answer) (turns : List (Signal × (ℕ → Answer))) (l : Loop) (s : Source)
      → P l
      → Leaves P (main_loop solvers fuel answers turns l s)
  unfolding main_loop
  main_loop-Leaves answers [] l s holds =
      turn_of-Leaves l.master.workers
        (visit_from solvers fuel l.master.workers 0 answers (clear_sigpipe l) s) suspends
        (visits-Kept answers l s holds) (λ l' s' holds'. holds')
  main_loop-Leaves answers ((signal, answers') ∷ turns) l s holds =
      turn_of-Leaves l.master.workers
        (visit_from solvers fuel l.master.workers 0 answers (clear_sigpipe l) s)
        (λ l' s'.
          main_loop solvers fuel answers' turns
            (record l' { master = sig_master_handler signal l'.master }) s')
        (visits-Kept answers l s holds)
        (λ l' s' holds'.
          main_loop-Leaves answers' turns
            (record l' { master = sig_master_handler signal l'.master }) s'
            (ops.by_signal signal l' holds'))
