-- ===== src/Master/Tests.antt =====
-- Examples for the master: each theorem at concrete workers.
use system_fundamentals_ii_c.Prelude.{
  List, [], arith, false, if◌then◌else◌, length, none, pos, refl, some, take, true, ℕ, ◌+◌, ◌==◌,
  ◌∷◌, ◌≡◌,
}
use system_fundamentals_ii_c.Master.{
  Master, Signal, Status, aborted, exit_failure, finish, has_continued, has_exited, has_stopped,
  idle, running, sig_master_handler, sigchld, started, update, waits, was_killed,
}
use system_fundamentals_ii_c.Master.Break.{main_loop_outstanding}
use system_fundamentals_ii_c.Master.Ending.{Tells, finish-Tells, handle_all}
use system_fundamentals_ii_c.Master.Killed.{AllKilled, finish_killed, only_killed}
use system_fundamentals_ii_c.Master.Log.{IsLogged, main_loop-IsLogged}
use system_fundamentals_ii_c.Master.Loop.{Loop, Main, breaks, init_workers, main_loop, suspends}
use system_fundamentals_ii_c.Master.Options.{default_settings, parse_options, workers_option}
use system_fundamentals_ii_c.Master.Problems.{
  Answer, Problem, SolverMethods, Source, get_problem_variant, gives, init_problems, reads_freed,
  trivial_construct, trivial_solver,
}
use system_fundamentals_ii_c.Master.Reports.{
  HasOwnPids, follow, is_reported, sig_master_handler-follow, step,
}
use system_fundamentals_ii_c.Master.Rounds.{Pool, collect, collect-reads_freed}
use system_fundamentals_ii_c.Master.Sent.{IsSent, main_loop-IsSent}
use system_fundamentals_ii_c.Master.Turns.{Leaves}

-- Two workers with the pids 10 and 11, the first one running.
abbrev two_workers : Master
two_workers = record {
  workers = 2;
  children = λ i. 10 + i;
  worker_states = λ i. if i == 0 then running else idle;
  sigchld_flag = λ i. false;
  sigpipe_flag = false;
  changes = [];
}

two_workers-HasOwnPids : HasOwnPids two_workers
unfolding HasOwnPids
two_workers-HasOwnPids i j hi hj e = omega (arith, e)

abbrev both_exit : List (ℕ × Status)
both_exit = (11, has_exited 0) ∷ (10, has_stopped) ∷ (10, has_exited 1) ∷ []

sig_master_handler-follow_example :
    ((sig_master_handler (sigchld both_exit) two_workers).worker_states 0 ≡ aborted)
    × ((sig_master_handler (sigchld both_exit) two_workers).sigchld_flag 0 ≡ true)
unfolding follow step is_reported
sig_master_handler-follow_example =
    sig_master_handler-follow both_exit two_workers 0 two_workers-HasOwnPids (omega arith)

finish-Tells_example :
    (k : ℕ) × Tells
      (finish (sigchld both_exit ∷ []) two_workers)
      (handle_all (take k (sigchld both_exit ∷ [])) two_workers)
    × (finish (sigchld both_exit ∷ []) two_workers ≡ waits → k ≡ length (sigchld both_exit ∷ []))
finish-Tells_example = finish-Tells (sigchld both_exit ∷ []) two_workers

both_exit_fails : finish (sigchld both_exit ∷ []) two_workers ≡ exit_failure
unfolding finish
both_exit_fails = refl

finish_killed_example :
    finish (sigchld ((11, has_exited 0) ∷ (10, was_killed) ∷ []) ∷ []) two_workers ≡ waits
unfolding AllKilled only_killed
finish_killed_example =
    finish_killed (sigchld ((11, has_exited 0) ∷ (10, was_killed) ∷ []) ∷ []) two_workers 0
      two_workers-HasOwnPids (omega arith) refl (refl, tt)

abbrev one_problem : Problem
one_problem = record { kind = 1; id = 1; nvars = 2; var = 0; content = [] }

-- The problem 5 is the current one.
abbrev one_source : Source
one_source = record {
  problem_at = λ p. if p == 5 then some one_problem else none;
  fresh = 6;
  current_problem = some 5;
  problems_remaining = 0;
  num_problem_types = 1;
  last_id = 1;
  random = λ k. k;
  drawn = 0;
}

-- Both workers have the problem.
abbrev both_work : Pool
both_work = record { current_problems = λ i. some 5; canceled = [] }

abbrev solution : Answer
solution = record { is_failed = false; content = [] }

collect-reads_freed_example :
    collect (λ kind. trivial_solver 0) 2 0 solution both_work one_source ≡ reads_freed
collect-reads_freed_example =
    collect-reads_freed (λ kind. trivial_solver 0) 2 0 1 5 solution one_problem both_work one_source
      (omega arith) (λ e. omega arith) refl refl refl refl refl refl

-- The first problem of the trivial solver.
first_problem :
    get_problem_variant
      (λ kind.
        if kind == 1 then trivial_solver 7 else record (trivial_solver 7) { construct = none })
      5
      2
      0
      (init_problems 1 2
        (λ k. k)
        (record one_source { current_problem = none; num_problem_types = 0 }))
    ≡ gives (some 6) record {
      problem_at =
          update
            (update one_source.problem_at 6 (some (trivial_construct 7 2 2)))
            6
            (some (trivial_construct 7 2 2));
      fresh = 7;
      current_problem = some 6;
      problems_remaining = 0;
      num_problem_types = 1;
      last_id = 2;
      random = λ k. k;
      drawn = 2;
    }
unfolding get_problem_variant init_problems
first_problem = refl

-- Two workers with the pids 10 and 11 that get the trivial problems of a source. The arrays hold 0.
abbrev trivial_solvers : ℕ → SolverMethods
trivial_solvers kind =
    if kind == 1 then trivial_solver 7 else record (trivial_solver 7) { construct = none }

abbrev two_problems : Source
unfolding init_problems
two_problems =
    init_problems 2 2 (λ k. k) (record one_source { current_problem = none; num_problem_types = 0 })

abbrev two_started : Loop
two_started = init_workers 2 (λ i. 10 + i) (λ i. started) (λ i. false) (λ i. none) (λ i. 0)

abbrev solutions : ℕ → Answer
solutions i = solution

-- Both workers stop, and the first one gets a problem; it goes on and stops with a solution.
abbrev one_round : List (Signal × (ℕ → Answer))
one_round =
    (sigchld ((10, has_stopped) ∷ []), solutions)
    ∷ (sigchld ((10, has_continued) ∷ []), solutions)
    ∷ (sigchld ((10, has_stopped) ∷ []), solutions)
    ∷ []

-- The problems that are written to the workers, the first one last.
abbrev problems_sent : Main → List (ℕ × ℕ)
problems_sent (breaks l s) = l.sent
problems_sent (suspends l s) = l.sent
problems_sent _ = []

first_is_sent_twice :
    problems_sent (main_loop trivial_solvers 9 solutions one_round two_started two_problems)
    ≡ (0, 7) ∷ (0, 6) ∷ []
unfolding main_loop init_workers two_problems
first_is_sent_twice = refl

main_loop-IsLogged_example :
    Leaves
      (λ l. IsLogged l.master)
      (main_loop trivial_solvers 9 solutions one_round two_started two_problems)
main_loop-IsLogged_example =
    main_loop-IsLogged trivial_solvers 9 2 (λ i. 10 + i) (λ i. started) (λ i. false) (λ i. none)
      (λ i. 0) solutions one_round two_problems (λ i j hi hj e. omega (arith, e))

main_loop-IsSent_example :
    Leaves
      (IsSent (λ i. none))
      (main_loop trivial_solvers 9 solutions one_round two_started two_problems)
main_loop-IsSent_example =
    main_loop-IsSent trivial_solvers 9 2 (λ i. 10 + i) (λ i. started) (λ i. false) (λ i. none)
      (λ i. 0) solutions one_round two_problems

-- One worker, and no problem: the loop ends when the worker is idle.
abbrev no_problems : Source
unfolding init_problems
no_problems =
    init_problems 0 2 (λ k. k) (record one_source { current_problem = none; num_problem_types = 0 })

abbrev one_started : Loop
one_started = init_workers 1 (λ i. 10 + i) (λ i. started) (λ i. false) (λ i. none) (λ i. 0)

abbrev stops_once : List (Signal × (ℕ → Answer))
stops_once = (sigchld ((10, has_stopped) ∷ []), solutions) ∷ []

abbrev loop_of : Main → Loop
loop_of (breaks l s) = l
loop_of _ = one_started

abbrev source_of : Main → Source
source_of (breaks l s) = s
source_of _ = no_problems

abbrev the_end : Main
unfolding main_loop init_workers no_problems
the_end = main_loop trivial_solvers 9 solutions stops_once one_started no_problems

abbrev last_loop : Loop
unfolding the_end
last_loop = loop_of the_end

main_loop_outstanding_example :
    (last_loop.master.worker_states 0 ≡ idle) × (last_loop.pool.current_problems 0 ≡ none)
unfolding the_end last_loop
main_loop_outstanding_example =
    main_loop_outstanding trivial_solvers 9 1 (λ i. 10 + i) (λ i. started) (λ i. false) (λ i. none)
      (λ i. 0) solutions stops_once no_problems (source_of the_end) last_loop 0
      (λ j e. omega (arith, e)) refl (omega arith)

too_many_workers : parse_options (workers_option (pos 32) ∷ []) default_settings ≡ none
unfolding parse_options
too_many_workers = refl
