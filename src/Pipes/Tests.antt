-- ===== src/Pipes/Tests.antt =====
-- Examples for the pipes: each theorem at concrete objects, and runs.
use system_fundamentals_ii_c.Prelude.{
  List, [], arith, false, if◌then◌else◌, leb, none, refl, some, true, ℕ, ◌++◌, ◌==◌, ◌∷◌, ◌≡◌,
}
use system_fundamentals_ii_c.Master.{idle, started, stopped, update}
use system_fundamentals_ii_c.Master.Loop.{Loop, assign_prob_to_worker, change_to, init_workers}
use system_fundamentals_ii_c.Master.Problems.{Problem, Source, trivial_solver}
use system_fundamentals_ii_c.Master.Rounds.{cancel}
use system_fundamentals_ii_c.Pipes.{
  File, exits, fdopen, gives_object, read_problem, size_field, write_fail, write_problem,
  write_result, writes_behind,
}
use system_fundamentals_ii_c.Pipes.Layout.{
  HasFields, problem_bytes, problem_of, read_problem-problem_bytes,
}
use system_fundamentals_ii_c.Pipes.Stale.{
  Visited, left_in_pipe, visit_stopped, visit_stopped_stale, visited,
}
use system_fundamentals_ii_c.Pipes.Streams.{stream}

abbrev small_problem : Problem
small_problem = record { kind = 1; id = 300; nvars = 2; var = 1; content = 7 ∷ 8 ∷ [] }

small_problem-HasFields : HasFields small_problem
small_problem-HasFields = record {
  short_kind = omega arith;
  short_id = omega arith;
  short_nvars = omega arith;
  short_var = omega arith;
  int_size = omega arith;
}

-- The stdin of a worker that has read nothing ahead, with the first byte of another problem.
abbrev stdin : File
unfolding problem_bytes write_problem
stdin = record { buffer = []; pipe = write_problem (problem_bytes small_problem) ++ (18 ∷ []) }

read_problem-problem_bytes_example :
    (object : List ℕ) × (stdin' : File) × (read_problem (λ size. true) stdin
      ≡ gives_object object stdin')
    × (problem_of object ≡ small_problem)
    × (stream stdin' ≡ 18 ∷ [])
unfolding stdin
read_problem-problem_bytes_example =
    read_problem-problem_bytes (λ size. true) stdin small_problem (18 ∷ []) small_problem-HasFields
      (record { header_given = refl; object_given = refl }) refl

-- A result of 17 bytes.
abbrev small_result : List ℕ
small_result = 17 ∷ 0 ∷ 0 ∷ 0 ∷ 0 ∷ 0 ∷ 0 ∷ 0 ∷ 1 ∷ 0 ∷ 0 ∷ 0 ∷ 0 ∷ 0 ∷ 0 ∷ 0 ∷ 42 ∷ []

-- A master whose worker has the problem 5.
abbrev one_source : Source
one_source = record {
  problem_at = λ p. if p == 5 then some small_problem else none;
  fresh = 6;
  current_problem = some 5;
  problems_remaining = 0;
  num_problem_types = 1;
  last_id = 1;
  random = λ k. k;
  drawn = 0;
}

-- The worker 0 was canceled before, and has now solved the problem 5.
abbrev one_worker : Loop
unfolding init_workers
one_worker = init_workers 1 (λ i. 10) (λ i. started) (λ i. false) (λ i. some 5) (λ i. 0)

-- The failure that the worker has written, and its stop when it was canceled.
abbrev failure : List ℕ
failure = write_fail 9 9 (1 ∷ 2 ∷ 3 ∷ 4 ∷ 5 ∷ [])

abbrev canceled_stop : Visited
canceled_stop =
    visit_stopped (λ size. true) (λ kind. trivial_solver 0) 9 0 failure
      (record one_worker { pool = cancel 0 one_worker.pool }) one_source

visit_stopped_stale_example :
    (left_in_pipe canceled_stop ≡ failure)
    × (visit_stopped
          (λ size. true)
          (λ kind. trivial_solver 0)
          9
          0
          (left_in_pipe canceled_stop ++ write_result small_result)
          one_worker
          one_source
        ≡ visited
            (assign_prob_to_worker
              (λ kind. trivial_solver 0)
              9
              0
              (change_to stopped idle 0 (record one_worker {
                pool = record one_worker.pool {
                  current_problems = update one_worker.pool.current_problems 0 none;
                };
              }))
              one_source)
            [])
unfolding write_fail write_result one_worker
visit_stopped_stale_example =
    visit_stopped_stale (λ size. true) (λ kind. trivial_solver 0) 9 0 9 9 5 (1 ∷ 2 ∷ 3 ∷ 4 ∷ 5 ∷ [])
      small_result small_problem one_worker one_worker one_source one_source refl
      (record { header_given = refl; object_given = refl }) (omega arith) refl refl

-- At the end of the pipe: the size is 2 ^ 64 - 1, which realloc does not give.
end_of_pipe : read_problem (λ size. leb size 1000000) (fdopen []) ≡ exits
unfolding read_problem size_field
end_of_pipe = refl

-- A header whose size is below 16.
too_small :
    read_problem
      (λ size. true)
      (fdopen (8 ∷ 0 ∷ 0 ∷ 0 ∷ 0 ∷ 0 ∷ 0 ∷ 0 ∷ 0 ∷ 0 ∷ 0 ∷ 0 ∷ 0 ∷ 0 ∷ 0 ∷ 0 ∷ []))
    ≡ writes_behind
unfolding read_problem size_field
too_small = refl
