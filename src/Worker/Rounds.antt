-- ===== src/Worker/Rounds.antt =====
-- HW4-Multi-process-Problem-Solver/src/worker.c: a round of the loop, and its end.
use system_fundamentals_ii_c.Prelude.{
  Bool, List, Option, [], ap, false, if◌then◌else◌, none, refl, some, sym, true, ◌∙◌, ◌∷◌, ◌≡◌,
}
use system_fundamentals_ii_c.Master.Problems.{Answer, Problem}
use system_fundamentals_ii_c.Worker.{
  Event, Worker, arrives, at_stop, gone, has_failed, has_solved, judged, run, sigcont, sighup,
  sigterm, start, tick, woken, writes,
}
use system_fundamentals_ii_c.Worker.Invariant.{IsFree}
use system_fundamentals_ii_c.Worker.Protocol.{run-answered}

-- Stopped by itself, with nothing in the pipe.
pub record Waits (w : Worker) : Type 0 where
  pub at_rest : w.place ≡ at_stop
  pub rests : w.is_stopped ≡ true
  pub no_stop : w.got_stop ≡ false
  pub nothing_sent : w.stdin ≡ []

-- The steps of a round, behind the test that the master writes a problem and sends SIGCONT.
abbrev pub round_of : Problem → List Event
round_of prob =
    writes prob ∷ arrives sigcont ∷ tick ∷ tick ∷ tick ∷ tick ∷ tick ∷ tick ∷ tick ∷ tick ∷ []

abbrev pub accepted : (check : Answer → Problem → Bool) → Problem → Option Answer → Option Answer
accepted check prob none = none
accepted check prob (some answer) = if check answer prob then some answer else none

module _ (solve : Problem → Bool → Option Answer) (check : Answer → Problem → Bool) where
  -- The worker after a round.
  abbrev pub after_round : Problem → Worker → Worker
  after_round prob w = record w {
    got_cont = false;
    got_cncl = false;
    received = prob ∷ w.received;
    answers = (prob, accepted check prob (solve prob w.got_cncl)) ∷ w.answers;
  }

  -- A worker that rest, by the flags that vary.
  abbrev waiting :
      (got_cont got_cncl : Bool) (received : List Problem)
      (answers : List (Problem × Option Answer))
      → Worker
  waiting got_cont got_cncl received answers = record {
    place = at_stop;
    is_stopped = true;
    got_stop = false;
    got_cont = got_cont;
    got_term = false;
    got_cncl = got_cncl;
    stdin = [];
    received = received;
    answers = answers;
  }

  by_check :
      (prob : Problem) (answer : Answer) (is_right got_cncl : Bool) (received : List Problem)
      (answers : List (Problem × Option Answer))
      → run solve check
          (tick ∷ tick ∷ tick ∷ [])
          (record (waiting false got_cncl received answers) {
            place = if is_right then has_solved prob answer else has_failed prob;
            is_stopped = false;
          })
        ≡ waiting false false received ((prob, if is_right then some answer else none) ∷ answers)
  unfolding run
  by_check prob answer true got_cncl received answers = refl
  by_check prob answer false got_cncl received answers = refl

  -- What the last three steps leave.
  last_steps :
      (prob : Problem) (attempt : Option Answer) (got_cncl : Bool) (received : List Problem)
      (answers : List (Problem × Option Answer))
      → run solve check
          (tick ∷ tick ∷ tick ∷ [])
          (record (waiting false got_cncl received answers) {
            place = judged solve check prob attempt;
            is_stopped = false;
          })
        ≡ waiting false false received ((prob, accepted check prob attempt) ∷ answers)
  unfolding run
  last_steps prob none got_cncl received answers = refl
  last_steps prob (some answer) got_cncl received answers =
      by_check prob answer (check answer prob) got_cncl received answers

  -- One round of the loop: a worker that has stopped itself, that gets a problem and SIGCONT, and nothing
  -- else, stops itself again. It has read the problem and has answered it once: with the result of the
  -- solver if there is one and the checker accepts it, else with a failure. A cancellation that came
  -- before the round counts for it.
  pub run-round :
      (prob : Problem) (w : Worker)
      → Waits w
      → w.got_term ≡ false
      → run solve check (round_of prob) w ≡ after_round prob w
  unfolding run
  run-round prob w rest no_term =
      let same : w ≡ waiting w.got_cont w.got_cncl w.received w.answers = λ i. record {
        place = rest.at_rest i;
        is_stopped = rest.rests i;
        got_stop = rest.no_stop i;
        got_cont = w.got_cont;
        got_term = no_term i;
        got_cncl = w.got_cncl;
        stdin = rest.nothing_sent i;
        received = w.received;
        answers = w.answers;
      } in
      ap (run solve check (round_of prob)) same
      ∙ last_steps prob (solve prob w.got_cncl) w.got_cncl (prob ∷ w.received) w.answers
      ∙ sym (ap (after_round prob) same)

  -- A cancellation that comes too late spoils the next problem: when SIGHUP arrives at a worker that has
  -- stopped itself, it answers the next problem with a failure, though that problem was not canceled.
  -- The solver returns no result when its flag is set from the start.
  pub run-canceled :
      (prob : Problem) (w : Worker)
      → Waits w
      → w.got_term ≡ false
      → solve prob true ≡ none
      → (run solve check (arrives sighup ∷ round_of prob) w).answers ≡ (prob, none) ∷ w.answers
  unfolding run
  run-canceled prob w rest no_term cancels =
      let canceled = record w { place = woken w.place; got_cncl = true } in
      let rest' : Waits canceled = record {
        at_rest = ap woken rest.at_rest;
        rests = rest.rests;
        no_stop = rest.no_stop;
        nothing_sent = rest.nothing_sent;
      } in
      ap (λ x. x.answers) (run-round prob canceled rest' no_term)
      ∙ ap (λ attempt. (prob, accepted check prob attempt) ∷ w.answers) cancels

  leaves :
      (w : Worker)
      → w.place ≡ at_stop
      → w.got_stop ≡ false
      → (run solve check (arrives sigterm ∷ arrives sigcont ∷ tick ∷ tick ∷ []) w).place ≡ gone
  unfolding run
  leaves w at go =
      ap (λ x. (run solve check (arrives sigterm ∷ arrives sigcont ∷ tick ∷ tick ∷ []) x).place)
        same
    where
      same : w ≡ record w { place = at_stop; got_stop = false }
      same = λ i. record w { place = at i; got_stop = go i }

  -- The end of a worker: when the master sends SIGTERM and SIGCONT to a worker that has stopped itself, in
  -- this order, the worker exits after two steps, whatever has happened before and whatever it has not
  -- read. Nobody but the worker itself sends SIGSTOP.
  pub run_gone :
      (events : List Event)
      → IsFree events
      → (run solve check events start).is_stopped ≡ true
      → (run solve check
          (arrives sigterm ∷ arrives sigcont ∷ tick ∷ tick ∷ [])
          (run solve check events start)).place
        ≡ gone
  run_gone events free stop =
      let found = run-answered solve check events free stop in
      leaves (run solve check events start) found.0 found.1
