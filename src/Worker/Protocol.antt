-- ===== src/Worker/Protocol.antt =====
-- HW4-Multi-process-Problem-Solver/src/worker.c: what a worker answers, whatever happens.
use system_fundamentals_ii_c.Prelude.{Bool, List, Option, false, refl, true, ◌≡◌, ◌≢◌}
use system_fundamentals_ii_c.Master.Problems.{Answer, Problem}
use system_fundamentals_ii_c.Worker.{Event, Place, about_to_pause, at_stop, pausing, run, start}
use system_fundamentals_ii_c.Worker.Invariant.{AreRight, Holds, IsFree, answered, reached}

module _ (solve : Problem → Bool → Option Answer) (check : Answer → Problem → Bool) where
  -- A worker writes only right results: whatever signals and problems come, in whatever order, the checker
  -- accepts each result that the worker has written for the problem that it was written for. Nobody
  -- but the worker itself sends SIGSTOP.
  pub run-AreRight :
      (events : List Event)
      → IsFree events
      → AreRight solve check (run solve check events start).answers
  run-AreRight events free = (reached solve check events free).right

  stopped_at :
      (place : Place) (is_stopped got_stop got_cont : Bool) (received done : List Problem)
      → is_stopped ≡ true
      → Holds solve check place is_stopped got_stop got_cont received done
      → (place ≡ at_stop) × (got_stop ≡ false) × (received ≡ done)
  stopped_at at_stop true s c r d stop h = (refl, h.0, h.1)
  stopped_at _ true s c r d stop h = elim h [ ]
  stopped_at _ false s c r d stop h = absurd (cc stop)

  -- A worker that is stopped owes nothing: it is where it stops itself, and it has answered the problems
  -- that it has read, each once and in their order. Nobody but the worker itself sends SIGSTOP.
  pub run-answered :
      (events : List Event)
      → IsFree events
      → (run solve check events start).is_stopped ≡ true
      → ((run solve check events start).place ≡ at_stop)
        × ((run solve check events start).got_stop ≡ false)
        × ((run solve check events start).received
            ≡ answered solve check (run solve check events start).answers)
  run-answered events free stop =
      let w = run solve check events start in
      stopped_at w.place w.is_stopped w.got_stop w.got_cont w.received
        (answered solve check w.answers) stop (reached solve check events free).holds

  never_pauses :
      (place : Place) (is_stopped got_stop got_cont : Bool) (received done : List Problem)
      → Holds solve check place is_stopped got_stop got_cont received done
      → (place ≢ about_to_pause) × (place ≢ pausing)
  never_pauses about_to_pause true s c r d h = elim h [ ]
  never_pauses about_to_pause false s c r d h = elim h [ ]
  never_pauses pausing true s c r d h = elim h [ ]
  never_pauses pausing false s c r d h = elim h [ ]
  never_pauses _ is_stopped s c r d h = (λ e. cc e, λ e. cc e)

  -- The loop never pauses, so that no signal can come between the test of got_stop and the call of
  -- pause: the branch where there was no SIGCONT is not reached. Nobody but the worker itself sends
  -- SIGSTOP.
  pub run_awake :
      (events : List Event)
      → IsFree events
      → ((run solve check events start).place ≢ about_to_pause)
        × ((run solve check events start).place ≢ pausing)
  run_awake events free =
      let w = run solve check events start in
      never_pauses w.place w.is_stopped w.got_stop w.got_cont w.received
        (answered solve check w.answers) (reached solve check events free).holds
