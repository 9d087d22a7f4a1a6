-- ===== src/Master/Rounds.antt =====
-- HW4-Multi-process-Problem-Solver/src/master.c: what the main loop does with the result of a worker
-- that has stopped. kill() succeeds.
use system_fundamentals_ii_c.Prelude.{
  Bool-cases, List, Option, ap, arith, false, if◌then◌else◌, inl, inr, negsuc, none, pos, some, suc,
  true, zero, ℕ, ℤ, ◌+◌, ◌<◌, ◌==◌, ◌∙◌, ◌∷◌, ◌≡◌, ◌≤◌,
}
use system_fundamentals_ii_c.Master.{update}
use system_fundamentals_ii_c.Master.Problems.{
  Answer, Problem, Reply, SolverMethods, Source, free_problem, gives, judge, post_result,
  reads_freed, solved, still_running,
}

-- The variables of the loop: what each worker is working on, and whom sf_cancel and SIGHUP went to.
pub record Pool : Type 0 where
  pub current_problems : ℕ → Option ℕ
  pub canceled : List ℕ

-- The worker `j` is told to stop.
abbrev pub cancel : ℕ → Pool → Pool
cancel j pool = record {
  current_problems = update pool.current_problems j none;
  canceled = j ∷ pool.canceled;
}

-- The loop over the other workers, from `j` on: those with a problem of the same type are canceled.
unfoldable pub cancel_from : (rounds j i kind : ℕ) → Pool → Source → Reply Pool
cancel_from zero j i kind pool s = gives pool s
cancel_from (suc n) j i kind pool s = elim (j == i) [
  | true ↦ cancel_from n (j + 1) i kind pool s
  | false ↦ elim (pool.current_problems j) [
    | none ↦ cancel_from n (j + 1) i kind pool s
    | some p ↦ elim (s.problem_at p) [
      | none ↦ reads_freed
      | some prob ↦ elim (kind == prob.kind) [
        | true ↦ cancel_from n (j + 1) i kind (cancel j pool) s
        | false ↦ cancel_from n (j + 1) i kind pool s
      ]
    ]
  ]
]

module _ (solvers : ℕ → SolverMethods) where
  -- By what post_result returned.
  abbrev pub after_post : (workers i kind : ℕ) → Pool → Reply ℤ → Reply Pool
  unfolding cancel_from
  after_post workers i kind pool reads_freed = reads_freed
  after_post workers i kind pool still_running = still_running
  after_post workers i kind pool (gives (pos zero) s) = cancel_from workers 0 i kind pool s
  after_post workers i kind pool (gives (pos (suc n)) s) = gives pool s
  after_post workers i kind pool (gives (negsuc n) s) = gives pool s

  -- A worker that has stopped with a problem: its result is posted.
  unfoldable pub collect : (workers i : ℕ) → Answer → Pool → Source → Reply Pool
  unfolding after_post post_result
  collect workers i answer pool s = elim (pool.current_problems i) [
    | none ↦ gives pool s
    | some p ↦ elim (s.problem_at p) [
      | none ↦ reads_freed
      | some prob ↦
          after_post workers i prob.kind
            (record pool { current_problems = update pool.current_problems i none })
            (post_result solvers answer p s)
    ]
  ]

itself : (p : ℕ) → (p == p) ≡ true
itself p = ground arith

same_number : (k j : ℕ) → (k == j) ≡ true → k ≡ j
same_number k j here = ground arith

here_freed :
    (n k i kind p : ℕ) (pool : Pool) (s : Source)
    → (k == i) ≡ false
    → pool.current_problems k ≡ some p
    → s.problem_at p ≡ none
    → cancel_from (suc n) k i kind pool s ≡ reads_freed
unfolding cancel_from
here_freed n k i kind p pool s other has freed = ground arith

-- The loop reads a problem that is freed, where one of the workers it comes to has it.
cancel_from-reads_freed :
    (rounds k j i kind p : ℕ) (pool : Pool) (s : Source)
    → k ≤ j
    → j < k + rounds
    → (j ≡ i → ⊥)
    → pool.current_problems j ≡ some p
    → s.problem_at p ≡ none
    → cancel_from rounds k i kind pool s ≡ reads_freed
unfolding cancel_from
cancel_from-reads_freed zero k j i kind p pool s from below other has freed = absurd (omega arith)
cancel_from-reads_freed (suc n) k j i kind p pool s from below other has freed =
    elim (Bool-cases (k == j)) [
      | inl here ↦
          here_freed n k i kind p pool s (ground arith)
            (ap pool.current_problems (same_number k j here) ∙ has) freed
      | inr later ↦ ground (
        arith,
        cancel_from-reads_freed n (k + 1) j i kind p pool s,
        cancel_from-reads_freed n (k + 1) j i kind p (cancel k pool) s,
      )
    ]

module _ (solvers : ℕ → SolverMethods) where
  abbrev by_problem : Answer → ℕ → Source → Option Problem → Reply ℤ
  by_problem answer p s found = elim found [
    | none ↦ reads_freed
    | some prob ↦ judge solvers p answer prob s
  ]

  post_solved :
      (answer : Answer) (p : ℕ) (prob : Problem) (s : Source)
      → answer.is_failed ≡ false
      → (solvers prob.kind).check answer prob ≡ true
      → s.problem_at p ≡ some prob
      → s.current_problem ≡ some p
      → post_result solvers answer p s
        ≡ gives (pos 0) (record (free_problem p s) { current_problem = none })
  unfolding post_result
  post_solved answer p prob s succeeded right there current =
      ap (by_problem answer p s) there
      ∙ ap
          (λ b.
            if b
            then gives (negsuc 0) s
            else if (solvers prob.kind).check answer prob
            then gives (pos 0) (solved solvers p s.current_problem s)
            else gives (pos 1) s)
          succeeded
      ∙ ap
          (λ b. if b then gives (pos 0) (solved solvers p s.current_problem s) else gives (pos 1) s)
          right
      ∙ ap (λ c. gives (pos 0) (solved solvers p c s)) current
      ∙ ap
          (λ b.
            gives (pos 0) (if b then record (free_problem p s) { current_problem = none } else s))
          (itself p)

abbrev pub by_memory_of :
    (solvers : ℕ → SolverMethods) (workers i p : ℕ)
    → Answer
    → Pool
    → Source
    → Option Problem
    → Reply Pool
by_memory_of solvers workers i p answer pool s found = elim found [
  | none ↦ reads_freed
  | some prob ↦
      after_post solvers workers i prob.kind
        (record pool { current_problems = update pool.current_problems i none })
        (post_result solvers answer p s)
]

abbrev pub by_problem_of :
    (solvers : ℕ → SolverMethods) (workers i : ℕ) → Answer → Pool → Source → Option ℕ → Reply Pool
by_problem_of solvers workers i answer pool s found = elim found [
  | none ↦ gives pool s
  | some p ↦ by_memory_of solvers workers i p answer pool s (s.problem_at p)
]

unchanged : (f : ℕ → Option ℕ) (i j p : ℕ) → (j ≡ i → ⊥) → f j ≡ some p → update f i none j ≡ some p
unchanged f i j p other has = ground arith

freed_now : (f : ℕ → Option Problem) (p : ℕ) → update f p none p ≡ none
freed_now f p = ground arith

-- When a worker solves the current problem, and another worker has the same problem, the loop that
-- cancels the others reads the problem after post_result has freed it. The result is not failed, and
-- the solver accepts it.
pub collect-reads_freed :
    (solvers : ℕ → SolverMethods) (workers i j p : ℕ) (answer : Answer) (prob : Problem)
    (pool : Pool) (s : Source)
    → j < workers
    → (j ≡ i → ⊥)
    → pool.current_problems i ≡ some p
    → pool.current_problems j ≡ some p
    → s.problem_at p ≡ some prob
    → s.current_problem ≡ some p
    → answer.is_failed ≡ false
    → (solvers prob.kind).check answer prob ≡ true
    → collect solvers workers i answer pool s ≡ reads_freed
unfolding collect
collect-reads_freed solvers workers i j p answer prob pool s inside other has_i has_j there current
      succeeded right =
    let pool' = record pool { current_problems = update pool.current_problems i none } in
    let s' = record (free_problem p s) { current_problem = none } in
    ap (by_problem_of solvers workers i answer pool s) has_i
    ∙ ap (by_memory_of solvers workers i p answer pool s) there
    ∙ ap (after_post solvers workers i prob.kind pool')
        (post_solved solvers answer p prob s succeeded right there current)
    ∙ cancel_from-reads_freed workers 0 j i prob.kind p pool' s' (omega arith) (omega arith) other
        (unchanged pool.current_problems i j p other has_j) (freed_now s.problem_at p)
