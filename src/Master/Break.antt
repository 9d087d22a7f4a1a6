-- ===== src/Master/Break.antt =====
-- HW4-Multi-process-Problem-Solver/src/master.c: how the main loop ends.
use system_fundamentals_ii_c.Prelude.{
  Bool, Bool-cases, List, Option, [], arith, false, if◌then◌else◌, inl, inr, none, refl, some,
  subst, suc, true, zero, ℕ, ◌+◌, ◌<◌, ◌∷◌, ◌≡◌, ◌≢◌, ◌≤◌,
}
use system_fundamentals_ii_c.Master.{
  Signal, WorkerState, aborted, all_idle_from, continued, exited, idle, is_all_idle, is_idle,
  running, sig_master_handler, started, stopped, update,
}
use system_fundamentals_ii_c.Master.Loop.{
  Loop, Main, breaks, clear_sigpipe, count_no_more, draws_forever, fails, init_workers, is_done,
  main_loop, reads_memory, suspends, visit_from,
}
use system_fundamentals_ii_c.Master.Problems.{
  Answer, Reply, SolverMethods, Source, gives, reads_freed, still_running,
}
use system_fundamentals_ii_c.Master.Sent.{Shrinks, collect-Shrinks}
use system_fundamentals_ii_c.Master.Turns.{IsKept, Leaves, main_loop-Leaves, turn_of}

is_idle_lem : (st : WorkerState) → is_idle st ≡ true → st ≡ idle
is_idle_lem started h = absurd (cc h)
is_idle_lem idle h = refl
is_idle_lem continued h = absurd (cc h)
is_idle_lem running h = absurd (cc h)
is_idle_lem stopped h = absurd (cc h)
is_idle_lem exited h = absurd (cc h)
is_idle_lem aborted h = absurd (cc h)

all_idle_lem :
    (states : ℕ → WorkerState) (n i j : ℕ)
    → all_idle_from states n i ≡ true
    → i ≤ j
    → j < i + n
    → states j ≡ idle
unfolding all_idle_from
all_idle_lem states zero i j all low high = absurd (omega (arith, low, high))
all_idle_lem states (suc n) i j all low high = elim (Bool-cases (is_idle (states i))) [
  | inl here ↦
      ground
        (arith, here, is_idle_lem (states i) here, all_idle_lem states n (i + 1) j, all, low, high)
  | inr other ↦ absurd (ground (arith, all, other))
]

count_no_more_bound : (no_more : ℕ → ℕ) (n i : ℕ) → count_no_more no_more n i ≤ n
unfolding count_no_more
count_no_more_bound no_more zero i = omega arith
count_no_more_bound no_more (suc n) i = ground (arith, count_no_more_bound no_more n (i + 1))

count_no_more_full :
    (no_more : ℕ → ℕ) (n i j : ℕ)
    → n ≤ count_no_more no_more n i
    → i ≤ j
    → j < i + n
    → no_more j ≡ 1
unfolding count_no_more
count_no_more_full no_more zero i j full low high = absurd (omega (arith, low, high))
count_no_more_full no_more (suc n) i j full low high = ground (
  arith,
  count_no_more_bound no_more n (i + 1),
  count_no_more_full no_more n (i + 1) j,
  full,
  low,
  high,
)

-- Where the loop ends, its test holds.
abbrev IsTested : Main → Type 0
IsTested (breaks l s) = is_done l ≡ true
IsTested (suspends l s) = Unit
IsTested fails = Unit
IsTested reads_memory = Unit
IsTested draws_forever = Unit

tested :
    (l : Loop) (s : Source) (rest : Main) (done : Bool)
    → is_done l ≡ done
    → IsTested rest
    → IsTested (if done then breaks l s else rest)
tested l s rest true is h = is
tested l s rest false is h = h

module _ (solvers : ℕ → SolverMethods) (fuel : ℕ) where
  turn_of-IsTested :
      (reply : Reply (Option Loop)) (rest : Loop → Source → Main)
      → ((l : Loop) (s : Source) → IsTested (rest l s))
      → IsTested (turn_of reply rest)
  turn_of-IsTested reads_freed rest h = tt
  turn_of-IsTested still_running rest h = tt
  turn_of-IsTested (gives none s) rest h = tt
  turn_of-IsTested (gives (some l) s) rest h = tested l s (rest l s) (is_done l) refl (h l s)

  main_loop-IsTested :
      (answers : ℕ → Answer) (turns : List (Signal × (ℕ → Answer))) (l : Loop) (s : Source)
      → IsTested (main_loop solvers fuel answers turns l s)
  unfolding main_loop
  main_loop-IsTested answers [] l s =
      turn_of-IsTested (visit_from solvers fuel l.master.workers 0 answers (clear_sigpipe l) s)
        suspends (λ l' s'. tt)
  main_loop-IsTested answers ((signal, answers') ∷ turns) l s =
      turn_of-IsTested (visit_from solvers fuel l.master.workers 0 answers (clear_sigpipe l) s)
        (λ l' s'.
          main_loop solvers fuel answers' turns
            (record l' { master = sig_master_handler signal l'.master }) s')
        (λ l' s'.
          main_loop-IsTested answers' turns
            (record l' { master = sig_master_handler signal l'.master }) s')

  -- Where the loop ends, every worker is idle, and is marked as one that there is no problem for.
  idle_and_marked :
      (answers : ℕ → Answer) (turns : List (Signal × (ℕ → Answer))) (l l' : Loop) (s s' : Source)
      (i : ℕ)
      → main_loop solvers fuel answers turns l s ≡ breaks l' s'
      → i < l'.master.workers
      → (l'.master.worker_states i ≡ idle) × (l'.no_more_problems i ≡ 1)
  unfolding is_done is_all_idle
  idle_and_marked answers turns l l' s s' i ends below =
      let both : is_done l' ≡ true = subst IsTested ends (main_loop-IsTested answers turns l s) in
      let counted : l'.master.workers ≤ count_no_more l'.no_more_problems l'.master.workers 0 =
        ground (arith, both) in
      let all : all_idle_from l'.master.worker_states l'.master.workers 0 ≡ true =
        ground (arith, both) in
      (
        all_idle_lem l'.master.worker_states l'.master.workers 0 i all (omega arith)
            (omega (arith, below)),
        count_no_more_full l'.no_more_problems l'.master.workers 0 i counted (omega arith)
            (omega (arith, below)),
      )

-- A worker that is marked as one that there is no problem for has none.
abbrev AreFree : Loop → Type 0
AreFree l = (i : ℕ) → l.no_more_problems i ≡ 1 → l.pool.current_problems i ≡ none

after_nothing :
    (current : ℕ → Option ℕ) (no_more : ℕ → ℕ) (i j : ℕ)
    → (no_more j ≡ 1 → current j ≡ none)
    → update no_more i 1 j ≡ 1
    → update current i none j ≡ none
after_nothing current no_more i j free marked = ground (arith, free, marked)

after_problem :
    (current : ℕ → Option ℕ) (no_more : ℕ → ℕ) (i j p : ℕ)
    → (no_more j ≡ 1 → current j ≡ none)
    → update no_more i 0 j ≡ 1
    → update current i (some p) j ≡ none
after_problem current no_more i j p free marked = ground (arith, free, marked)

-- Where problems are only taken away, there is none where there was none.
none_taken :
    (before after : Option ℕ)
    → ((p : ℕ) → after ≡ some p → before ≡ some p)
    → before ≡ none
    → after ≡ none
none_taken before none fewer empty = refl
none_taken before (some p) fewer empty = absurd (cc (fewer p refl, empty))

module _ (solvers : ℕ → SolverMethods) where
  AreFree-kept : IsKept solvers AreFree
  AreFree-kept = record {
    by_change = λ old new i l below is free. free;
    by_flag = λ i l free. free;
    by_sigpipe = λ l free. free;
    by_signal = λ signal l free. free;
    by_nothing = λ i l free j marked.
        after_nothing l.pool.current_problems l.no_more_problems i j (free j) marked;
    by_problem = λ i p l free j marked.
        after_problem l.pool.current_problems l.no_more_problems i j p (free j) marked;
    by_collect = λ i answer l s s' pool posted free j marked.
        none_taken (l.pool.current_problems j) (pool.current_problems j)
          (λ p has.
            subst (Shrinks l.pool) posted
              (collect-Shrinks solvers l.master.workers i answer l.pool s) j p has)
          (free j marked);
  }

-- The main loop, from what init_workers leaves, whatever signals come and whatever the workers report:
-- it ends only when every worker is idle and current_problems is NULL for every worker. No element of
-- no_more_problems, which init_workers leaves as the memory has it, is 1 at the start.
pub main_loop_outstanding :
    (solvers : ℕ → SolverMethods) (fuel workers : ℕ) (pids : ℕ → ℕ) (states : ℕ → WorkerState)
    (flags : ℕ → Bool) (problems : ℕ → Option ℕ) (no_more : ℕ → ℕ) (answers : ℕ → Answer)
    (turns : List (Signal × (ℕ → Answer))) (s s' : Source) (l' : Loop) (i : ℕ)
    → ((j : ℕ) → no_more j ≢ 1)
    → main_loop solvers fuel answers turns
        (init_workers workers pids states flags problems no_more)
        s
      ≡ breaks l' s'
    → i < l'.master.workers
    → (l'.master.worker_states i ≡ idle) × (l'.pool.current_problems i ≡ none)
unfolding init_workers
main_loop_outstanding solvers fuel workers pids states flags problems no_more answers turns s s' l'
      i unmarked ends below =
    let l = init_workers workers pids states flags problems no_more in
    let (is_idle, marked) = idle_and_marked solvers fuel answers turns l l' s s' i ends below in
    let free : AreFree l' = subst (Leaves AreFree) ends (
      main_loop-Leaves solvers fuel AreFree (AreFree-kept solvers) answers turns l s
        (λ j is. absurd (unmarked j is))) in
    (is_idle, free i marked)
