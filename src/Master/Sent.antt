-- ===== src/Master/Sent.antt =====
-- HW4-Multi-process-Problem-Solver/src/master.c: which problems the workers have.
use system_fundamentals_ii_c.Prelude.{
  Bool, Bool-cases, List, Option, [], ap, arith, false, if◌then◌else◌, inl, inr, map, negsuc, none,
  pos, refl, some, subst, suc, true, zero, ℕ, ℤ, ◌&&◌, ◌+◌, ◌==◌, ◌∷◌, ◌≡◌, ◌⊎◌,
}
use system_fundamentals_ii_c.Master.{Signal, WorkerState, update}
use system_fundamentals_ii_c.Master.Loop.{Loop, init_workers, main_loop}
use system_fundamentals_ii_c.Master.Problems.{
  Answer, Problem, Reply, SolverMethods, Source, gives, post_result, reads_freed, still_running,
}
use system_fundamentals_ii_c.Master.Rounds.{
  Pool, after_post, by_memory_of, by_problem_of, cancel, cancel_from, collect,
}
use system_fundamentals_ii_c.Master.Turns.{IsKept, Leaves, main_loop-Leaves}

-- Whether a problem was written to a worker.
unfoldable pub is_sent : List (ℕ × ℕ) → (i p : ℕ) → Bool
is_sent [] i p = false
is_sent ((worker, problem) ∷ sent) i p =
    let rest = is_sent sent i p in if worker == i && problem == p then true else rest

-- A worker has got one SIGCONT for each problem that was written to it, and its current problem is one of
-- these, or else what the array held at the start.
pub record IsSent (problems : ℕ → Option ℕ) (l : Loop) : Type 0 where
  pub one_each : l.resumed ≡ map (λ x. x.0) l.sent
  pub current :
      (i p : ℕ)
      → l.pool.current_problems i ≡ some p
      → (is_sent l.sent i p ≡ true) ⊎ (problems i ≡ some p)

-- Problems are only taken away.
abbrev pub Shrinks : Pool → Reply Pool → Type 0
Shrinks pool (gives pool' s) =
    (i p : ℕ) → pool'.current_problems i ≡ some p → pool.current_problems i ≡ some p
Shrinks pool reads_freed = Unit
Shrinks pool still_running = Unit

removed : (f : ℕ → Option ℕ) (j i p : ℕ) → update f j none i ≡ some p → f i ≡ some p
removed f j i p has = ground arith

Shrinks-further :
    (pool pool' : Pool) (reply : Reply Pool)
    → ((i p : ℕ) → pool'.current_problems i ≡ some p → pool.current_problems i ≡ some p)
    → Shrinks pool' reply
    → Shrinks pool reply
Shrinks-further pool pool' (gives pool'' s) fewer h = λ i p has. fewer i p (h i p has)
Shrinks-further pool pool' reads_freed fewer h = tt
Shrinks-further pool pool' still_running fewer h = tt

-- One round of the loop that cancels, by what it looks at: the problem is of the same type or not, is in
-- the memory or not, and the worker is another one or not.
abbrev by_kind : (same fewer : Reply Pool) → Bool → Reply Pool
by_kind same fewer is_same = elim is_same [ true ↦ fewer | false ↦ same ]

abbrev by_memory : (kind : ℕ) (same fewer : Reply Pool) → Option Problem → Reply Pool
by_memory kind same fewer found = elim found [
  | none ↦ reads_freed
  | some prob ↦ by_kind same fewer (kind == prob.kind)
]

abbrev by_current :
    (problem_at : ℕ → Option Problem) (kind : ℕ) (same fewer : Reply Pool) → Option ℕ → Reply Pool
by_current problem_at kind same fewer current = elim current [
  | none ↦ same
  | some p ↦ by_memory kind same fewer (problem_at p)
]

abbrev by_worker :
    (problem_at : ℕ → Option Problem) (kind : ℕ) (same fewer : Reply Pool)
    → Option ℕ
    → Bool
    → Reply Pool
by_worker problem_at kind same fewer current is_itself = elim is_itself [
  | true ↦ same
  | false ↦ by_current problem_at kind same fewer current
]

module _ (P : Reply Pool → Type 0) (same fewer : Reply Pool) (if_same : P same) (if_fewer : P fewer)
    (if_freed : P reads_freed) where
  by_kind_lem : (is_same : Bool) → P (by_kind same fewer is_same)
  by_kind_lem true = if_fewer
  by_kind_lem false = if_same

  by_memory_lem : (kind : ℕ) (found : Option Problem) → P (by_memory kind same fewer found)
  by_memory_lem kind none = if_freed
  by_memory_lem kind (some prob) = by_kind_lem (kind == prob.kind)

  by_worker_lem :
      (problem_at : ℕ → Option Problem) (kind : ℕ) (current : Option ℕ) (is_itself : Bool)
      → P (by_worker problem_at kind same fewer current is_itself)
  by_worker_lem problem_at kind current true = if_same
  by_worker_lem problem_at kind none false = if_same
  by_worker_lem problem_at kind (some p) false = by_memory_lem kind (problem_at p)

cancel_from-Shrinks :
    (n j i kind : ℕ) (pool : Pool) (s : Source) → Shrinks pool (cancel_from n j i kind pool s)
unfolding cancel_from
cancel_from-Shrinks zero j i kind pool s = λ k p has. has
cancel_from-Shrinks (suc n) j i kind pool s =
    by_worker_lem (Shrinks pool) (cancel_from n (j + 1) i kind pool s)
      (cancel_from n (j + 1) i kind (cancel j pool) s) (cancel_from-Shrinks n (j + 1) i kind pool s)
      (Shrinks-further pool (cancel j pool) (cancel_from n (j + 1) i kind (cancel j pool) s)
        (removed pool.current_problems j) (cancel_from-Shrinks n (j + 1) i kind (cancel j pool) s))
      tt s.problem_at kind (pool.current_problems j) (j == i)

joined :
    (sent : List (ℕ × ℕ)) (i p j q : ℕ)
    → (is_sent sent j q ≡ true) ⊎ ((i ≡ j) × (p ≡ q))
    → is_sent ((i, p) ∷ sent) j q ≡ true
unfolding is_sent
joined sent i p j q (inl before) = ground (arith, before)
joined sent i p j q (inr (same_worker, same_problem)) = ground (arith, same_worker, same_problem)

newest :
    (problems : ℕ → Option ℕ) (i p : ℕ) (l : Loop) (j q : ℕ)
    → IsSent problems l
    → update l.pool.current_problems i (some p) j ≡ some q
    → (is_sent ((i, p) ∷ l.sent) j q ≡ true) ⊎ (problems j ≡ some q)
newest problems i p l j q sent has = elim (Bool-cases (j == i)) [
  | inl here ↦ inl (joined l.sent i p j q (inr (ground (arith, here), ground (arith, here, has))))
  | inr other ↦ elim (sent.current j q (ground (arith, other, has))) [
    | inl before ↦ inl (joined l.sent i p j q (inl before))
    | inr held ↦ inr held
  ]
]

module _ (solvers : ℕ → SolverMethods) where
  after_post-Shrinks :
      (workers i kind : ℕ) (pool : Pool) (reply : Reply ℤ)
      → Shrinks pool (after_post solvers workers i kind pool reply)
  unfolding cancel_from
  after_post-Shrinks workers i kind pool reads_freed = tt
  after_post-Shrinks workers i kind pool still_running = tt
  after_post-Shrinks workers i kind pool (gives (pos zero) s) =
      cancel_from-Shrinks workers 0 i kind pool s
  after_post-Shrinks workers i kind pool (gives (pos (suc n)) s) = λ k p has. has
  after_post-Shrinks workers i kind pool (gives (negsuc n) s) = λ k p has. has

  pub collect-Shrinks :
      (workers i : ℕ) (answer : Answer) (pool : Pool) (s : Source)
      → Shrinks pool (collect solvers workers i answer pool s)
  unfolding collect
  collect-Shrinks workers i answer pool s = by_problem (pool.current_problems i)
    where
      posted :
          (p : ℕ) (found : Option Problem)
          → Shrinks pool (by_memory_of solvers workers i p answer pool s found)
      posted p none = tt
      posted p (some prob) =
          Shrinks-further pool
            (record pool { current_problems = update pool.current_problems i none })
            (after_post solvers workers i prob.kind
              (record pool { current_problems = update pool.current_problems i none })
              (post_result solvers answer p s))
            (removed pool.current_problems i)
            (after_post-Shrinks workers i prob.kind
              (record pool { current_problems = update pool.current_problems i none })
              (post_result solvers answer p s))

      by_problem :
          (found : Option ℕ) → Shrinks pool (by_problem_of solvers workers i answer pool s found)
      by_problem none = λ k p has. has
      by_problem (some p) = posted p (s.problem_at p)

  IsSent-kept : (problems : ℕ → Option ℕ) → IsKept solvers (IsSent problems)
  IsSent-kept problems = record {
    by_change =
        λ old new i l below is sent. record { one_each = sent.one_each; current = sent.current };
    by_flag = λ i l sent. record { one_each = sent.one_each; current = sent.current };
    by_sigpipe = λ l sent. record { one_each = sent.one_each; current = sent.current };
    by_signal = λ signal l sent. record { one_each = sent.one_each; current = sent.current };
    by_nothing = λ i l sent. record {
      one_each = sent.one_each;
      current = λ j p has. sent.current j p (removed l.pool.current_problems i j p has);
    };
    by_problem = λ i p l sent. record {
      one_each = ap (i ∷◌) sent.one_each;
      current = λ j q has. newest problems i p l j q sent has;
    };
    by_collect = λ i answer l s s' pool posted sent. record {
      one_each = sent.one_each;
      current = λ j p has. sent.current j p (
          subst (Shrinks l.pool) posted (collect-Shrinks l.master.workers i answer l.pool s) j p
            has);
    };
  }

-- What the main loop does with the problems, whatever signals come and whatever the workers report: it
-- sends a worker one SIGCONT for each problem that it writes to it, and the current problem of a worker
-- is one that was written to it, or what the array current_problems held at the start. It holds when
-- the loop ends, and whenever it is suspended.
pub main_loop-IsSent :
    (solvers : ℕ → SolverMethods) (fuel workers : ℕ) (pids : ℕ → ℕ) (states : ℕ → WorkerState)
    (flags : ℕ → Bool) (problems : ℕ → Option ℕ) (no_more : ℕ → ℕ) (answers : ℕ → Answer)
    (turns : List (Signal × (ℕ → Answer))) (s : Source)
    → Leaves (IsSent problems) (
        main_loop solvers fuel answers turns
          (init_workers workers pids states flags problems no_more)
          s)
unfolding init_workers
main_loop-IsSent solvers fuel workers pids states flags problems no_more answers turns s =
    main_loop-Leaves solvers fuel (IsSent problems) (IsSent-kept solvers problems) answers turns
      (init_workers workers pids states flags problems no_more) s
      (record { one_each = refl; current = λ i p has. inr has })
