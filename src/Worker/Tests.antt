-- ===== src/Worker/Tests.antt =====
-- Examples for the worker: each theorem at concrete events, and runs.
use system_fundamentals_ii_c.Prelude.{
  Bool, List, Option, [], arith, false, if◌then◌else◌, none, refl, some, true, ◌++◌, ◌+◌, ◌∷◌, ◌≡◌,
}
use system_fundamentals_ii_c.Master.Problems.{Answer, Problem, trivial_check}
use system_fundamentals_ii_c.Worker.{
  Event, arrives, at_stop, gone, run, sigcont, sighup, start, tick, trivial_solve, writes,
}
use system_fundamentals_ii_c.Worker.Ended.{arriving, terminate-gone, terminate_from}
use system_fundamentals_ii_c.Worker.Invariant.{AreRight, answered}
use system_fundamentals_ii_c.Worker.Protocol.{run-AreRight, run-answered}
use system_fundamentals_ii_c.Worker.Rounds.{Waits, after_round, round_of, run-round}

abbrev small_problem : Problem
small_problem = record { kind = 1; id = 1; nvars = 2; var = 0; content = [] }

-- A solver that looks at the flag.
abbrev attempt : Problem → Bool → Option Answer
attempt prob canceled = if canceled then none else some (record { is_failed = false; content = [] })

abbrev success : Answer
success = record { is_failed = false; content = [] }

-- A problem that is solved, and one that is canceled on the way.
abbrev two_rounds : List Event
two_rounds =
    round_of small_problem
    ++ (writes small_problem
        ∷ arrives sigcont
        ∷ tick
        ∷ tick
        ∷ tick
        ∷ tick
        ∷ arrives sighup
        ∷ tick
        ∷ tick
        ∷ tick
        ∷ [])

both_answered :
    (run attempt trivial_check two_rounds start).answers
    ≡ (small_problem, none) ∷ (small_problem, some success) ∷ []
unfolding run start
both_answered = refl

run-AreRight_example :
    AreRight attempt trivial_check (run attempt trivial_check two_rounds start).answers
run-AreRight_example = run-AreRight attempt trivial_check two_rounds tt

run-answered_example :
    ((run attempt trivial_check two_rounds start).place ≡ at_stop)
    × ((run attempt trivial_check two_rounds start).got_stop ≡ false)
    × ((run attempt trivial_check two_rounds start).received
        ≡ answered attempt trivial_check (run attempt trivial_check two_rounds start).answers)
unfolding run start
run-answered_example = run-answered attempt trivial_check two_rounds tt refl

start-Waits : Waits start
unfolding start
start-Waits = record { at_rest = refl; rests = refl; no_stop = refl; nothing_sent = refl }

run-round_example :
    run (trivial_solve true) trivial_check (round_of small_problem) start
    ≡ after_round (trivial_solve true) trivial_check small_problem start
unfolding start
run-round_example =
    run-round (trivial_solve true) trivial_check small_problem start start-Waits refl

terminate-gone_example :
    (run attempt trivial_check
      (arriving 11 (terminate_from (λ i. 10 + i) 2 0) ++ (tick ∷ tick ∷ []))
      (run attempt trivial_check two_rounds start)).place
    ≡ gone
unfolding run start
terminate-gone_example =
    terminate-gone attempt trivial_check (λ i. 10 + i) 2 1 two_rounds
      (λ i j hi hj e. omega (arith, e)) (omega arith) tt refl
