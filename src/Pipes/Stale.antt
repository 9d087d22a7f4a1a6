-- ===== src/Pipes/Stale.antt =====
-- HW4-Multi-process-Problem-Solver/src/master.c and src/master_helper.c: the result of a canceled worker.
use system_fundamentals_ii_c.Prelude.{
  Bool, List, Option, [], ap, arith, if◌then◌else◌, inl, inr, length, negsuc, none, pos, refl, some,
  subst, sym, true, ℕ, ◌++◌, ◌<◌, ◌∙◌, ◌≡◌, ◌≤◌, ◌⊎◌,
}
use system_fundamentals_ii_c.Master.{idle, stopped, update}
use system_fundamentals_ii_c.Master.Loop.{
  Loop, after_collect, assign_prob_to_worker, change_to, visit_state,
}
use system_fundamentals_ii_c.Master.Problems.{
  Answer, Problem, Reply, SolverMethods, Source, gives, post_result, solved,
}
use system_fundamentals_ii_c.Master.Rounds.{
  Pool, after_post, by_memory_of, by_problem_of, cancel, collect,
}
use system_fundamentals_ii_c.Pipes.{
  Reading, exits, gives_object, read_result, write_fail, write_result, writes_behind,
}
use system_fundamentals_ii_c.Pipes.Layout.{answer_of, failure-IsObject, judge_failed}
use system_fundamentals_ii_c.Pipes.Objects.{
  Allocates, IsObject, read_result-write_result, write_result-IsObject,
}

-- The branches of the main loop for a worker that has stopped, with the bytes in its pipe: the result is
-- read only where the worker has a problem. What is left in the pipe comes behind the state.
pub data Visited : Type 0 where
  visited : Reply (Option Loop) → (pipe : List ℕ) → Visited
  crashes : Visited

-- What the pipe holds after the visit.
abbrev pub left_in_pipe : Visited → List ℕ
left_in_pipe (visited reply pipe) = pipe
left_in_pipe crashes = []

module _ (allocates : ℕ → Bool) (solvers : ℕ → SolverMethods) (fuel : ℕ) where
  -- By what read_result does.
  abbrev pub visit_read : (i : ℕ) → Loop → Source → Reading → Visited
  unfolding visit_state answer_of
  visit_read i l s (gives_object object f) =
      visited (visit_state solvers fuel stopped i (answer_of object) l s) f.pipe
  visit_read i l s exits = visited (gives none s) []
  visit_read i l s writes_behind = crashes

  -- By the current problem of the worker; without one, the answer is not looked at.
  abbrev pub visit_by : (i : ℕ) (pipe : List ℕ) → Loop → Source → Option ℕ → Visited
  unfolding visit_read read_result
  visit_by i pipe l s none =
      visited (visit_state solvers fuel stopped i (record { is_failed = true; content = [] }) l s)
        pipe
  visit_by i pipe l s (some p) = visit_read i l s (read_result allocates pipe)

  unfoldable pub visit_stopped : (i : ℕ) (pipe : List ℕ) → Loop → Source → Visited
  unfolding visit_by
  visit_stopped i pipe l s = visit_by i pipe l s (l.pool.current_problems i)

  -- A canceled worker has no problem, and what it has written stays in its pipe.
  visit_stopped-none :
      (i : ℕ) (pipe : List ℕ) (l : Loop) (s : Source)
      → l.pool.current_problems i ≡ none
      → left_in_pipe (visit_stopped i pipe l s) ≡ pipe
  unfolding visit_stopped visit_by
  visit_stopped-none i pipe l s canceled = ap (λ x. left_in_pipe (visit_by i pipe l s x)) canceled

-- What read_result leaves of a short pipe.
emptied : {f : List ℕ} {n : ℕ} → (f ≡ []) ⊎ (4096 < n) → n ≤ 4096 → f ≡ []
emptied (inl empty) short = empty
emptied (inr long) short = absurd (omega (arith, long, short))

canceled_now : (f : ℕ → Option ℕ) (i : ℕ) → update f i none i ≡ none
canceled_now f i = ground arith

failure-is_failed :
    (id_low id_high : ℕ) (padding : List ℕ)
    → (answer_of (write_fail id_low id_high padding)).is_failed ≡ true
unfolding write_fail answer_of
failure-is_failed id_low id_high padding = refl

-- A failed answer is posted: the worker has no problem any more, and the problems are as they were.
collect_failed :
    (solvers : ℕ → SolverMethods) (workers i p : ℕ) (answer : Answer) (prob : Problem) (pool : Pool)
    (s : Source)
    → answer.is_failed ≡ true
    → pool.current_problems i ≡ some p
    → s.problem_at p ≡ some prob
    → collect solvers workers i answer pool s
      ≡ gives (record pool { current_problems = update pool.current_problems i none }) s
unfolding collect post_result
collect_failed solvers workers i p answer prob pool s failed has there =
    ap (by_problem_of solvers workers i answer pool s) has
    ∙ ap (by_memory_of solvers workers i p answer pool s) there
    ∙ ap
        (λ found.
          after_post solvers workers i prob.kind
            (record pool { current_problems = update pool.current_problems i none })
            (judge_failed solvers p answer s found))
        there
    ∙ ap
        (λ b.
          after_post solvers workers i prob.kind
            (record pool { current_problems = update pool.current_problems i none })
            (if b
              then gives (negsuc 0) s
              else if (solvers prob.kind).check answer prob
              then gives (pos 0) (solved solvers p s.current_problem s)
              else gives (pos 1) s))
        failed

module _ (allocates : ℕ → Bool) (solvers : ℕ → SolverMethods) (fuel : ℕ) where
  -- The failure is read in place of the result behind it.
  reads_failure :
      (i id_low id_high p : ℕ) (padding object : List ℕ) (prob : Problem) (l : Loop) (s : Source)
      → length padding ≡ 5
      → Allocates allocates (write_fail id_low id_high padding)
      → length (write_fail id_low id_high padding ++ write_result object) ≤ 4096
      → l.pool.current_problems i ≡ some p
      → s.problem_at p ≡ some prob
      → visit_stopped allocates solvers fuel i
          (write_fail id_low id_high padding ++ write_result object)
          l
          s
        ≡ visited
            (assign_prob_to_worker solvers fuel i
              (change_to stopped idle i (record l {
                pool = record l.pool { current_problems = update l.pool.current_problems i none };
              }))
              s)
            []
  unfolding visit_stopped visit_by visit_read visit_state answer_of after_collect
  reads_failure i id_low id_high p padding object prob l s five given short has there =
      let fail = write_fail id_low id_high padding in
      let is : IsObject fail = failure-IsObject id_low id_high padding five in
      let same : fail ≡ write_result fail = sym (write_result-IsObject fail is) in
      let read = read_result-write_result allocates fail (write_result object) is given in
      let empty =
        emptied read.3 (subst (λ x. length (x ++ write_result object) ≤ 4096) same short) in
      ap (visit_by allocates solvers fuel i (fail ++ write_result object) l s) has
      ∙ ap
          (λ x.
            visit_read allocates solvers fuel i l s
              (read_result allocates (x ++ write_result object)))
          same
      ∙ ap (visit_read allocates solvers fuel i l s) read.1
      ∙ ap (visited (visit_state solvers fuel stopped i (answer_of fail) l s)) empty
      ∙ ap (λ reply. visited (after_collect solvers fuel i l reply) [])
          (collect_failed solvers l.master.workers i p (answer_of fail) prob l.pool s
            (failure-is_failed id_low id_high padding) has there)

  -- How the master loses a result of a worker that was canceled. The loop that cancels takes the
  -- problem of the worker away, and the worker writes a failure and stops. At this stop, which may be
  -- met with any state of the problems, nothing is read, so that the failure stays in the pipe. At
  -- any later stop where the worker has a problem p again, and has written a result for it behind
  -- what was left in the pipe, the master reads the failure instead: the worker is given its next
  -- problem as after a failure, with the problems as they were, whatever the result is; and the
  -- result is gone, since the pipe is empty. The problem p is in the memory, memory is given for the
  -- failure, which ends with 5 bytes of padding, and both together are not above 4096 bytes.
  pub visit_stopped_stale :
      (i id_low id_high p : ℕ) (padding object : List ℕ) (prob : Problem) (l0 l : Loop)
      (s0 s : Source)
      → length padding ≡ 5
      → Allocates allocates (write_fail id_low id_high padding)
      → length (write_fail id_low id_high padding ++ write_result object) ≤ 4096
      → l.pool.current_problems i ≡ some p
      → s.problem_at p ≡ some prob
      → let fail = write_fail id_low id_high padding in
        let first_stop =
          visit_stopped allocates solvers fuel i fail (record l0 { pool = cancel i l0.pool }) s0 in
        (left_in_pipe first_stop ≡ fail)
        × (visit_stopped allocates solvers fuel i
              (left_in_pipe first_stop ++ write_result object)
              l
              s
            ≡ visited
                (assign_prob_to_worker solvers fuel i
                  (change_to stopped idle i (record l {
                    pool = record l.pool {
                      current_problems = update l.pool.current_problems i none;
                    };
                  }))
                  s)
                [])
  visit_stopped_stale i id_low id_high p padding object prob l0 l s0 s five given short has there =
      let fail = write_fail id_low id_high padding in
      let kept =
        visit_stopped-none allocates solvers fuel i fail (record l0 { pool = cancel i l0.pool }) s0
          (canceled_now l0.pool.current_problems i) in
      (
        kept,
        ap (λ x. visit_stopped allocates solvers fuel i (x ++ write_result object) l s) kept
            ∙ reads_failure i id_low id_high p padding object prob l s five given short has there,
      )
