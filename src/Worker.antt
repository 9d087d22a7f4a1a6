-- ===== src/Worker.antt =====
-- HW4-Multi-process-Problem-Solver/src/worker.c: the loop of a worker and its signals.
pub mod Invariant
pub mod Protocol
pub mod Rounds
pub mod Ended
mod Tests
use system_fundamentals_ii_c.Prelude.{
  Bool, List, Option, [], false, if◌then◌else◌, none, some, true, ◌++◌, ◌∷◌,
}
use system_fundamentals_ii_c.Master.Problems.{Answer, Problem}

pub data WorkerSignal : Type 0 where
  sigcont sigterm sighup sigstop : WorkerSignal

-- Where a worker is in its code: at the tests of the loop in their order, with what it holds.
pub data Place : Type 0 where
  at_stop about_to_pause pausing at_term at_cont reading gone : Place
  has_read : Problem → Place
  has_solved : Problem → Answer → Place
  has_failed : Problem → Place
  has_written has_written_failure at_end : Place

-- A worker: its flags, whether SIGSTOP has stopped it, the problems in the pipe that it has not read,
-- those that it has read, and what it has written for which problem; the latest is the first.
pub record Worker : Type 0 where
  pub place : Place
  pub is_stopped : Bool
  pub got_stop : Bool
  pub got_cont : Bool
  pub got_term : Bool
  pub got_cncl : Bool
  pub stdin : List Problem
  pub received : List Problem
  pub answers : List (Problem × Option Answer)

-- sig_cont_handle
unfoldable pub sig_cont_handle : WorkerSignal → Worker → Worker
sig_cont_handle sigcont w = record w { got_cont = true }
sig_cont_handle sigstop w = record w { got_stop = true }
sig_cont_handle sigterm w = record w { got_term = true; got_cncl = true }
sig_cont_handle sighup w = record w { got_cncl = true }

-- pause() returns when a handler has run.
abbrev pub woken : Place → Place
woken pausing = at_term
woken place = place

-- A signal arrives. No handler runs for SIGSTOP, since signal() does not accept it. The handlers of the
-- signals that arrive while the worker is stopped run when it goes on; till then it reads no flag.
unfoldable pub arrive : WorkerSignal → Worker → Worker
unfolding sig_cont_handle
arrive sigstop w = record w { is_stopped = true }
arrive sigcont w = record (sig_cont_handle sigcont w) { is_stopped = false; place = woken w.place }
arrive sigterm w = record (sig_cont_handle sigterm w) { place = woken w.place }
arrive sighup w = record (sig_cont_handle sighup w) { place = woken w.place }

-- worker, up to where it stops itself for the first time.
unfoldable pub start : Worker
start = record {
  place = at_stop;
  is_stopped = true;
  got_stop = false;
  got_cont = false;
  got_term = false;
  got_cncl = false;
  stdin = [];
  received = [];
  answers = [];
}

-- read_problem, which waits for a problem.
abbrev pub read_next : List Problem → Worker → Worker
read_next [] w = w
read_next (prob ∷ stdin) w = record w {
  place = has_read prob;
  stdin = stdin;
  received = prob ∷ w.received;
}

-- trivial_solve, which does not look at the flag; malloc fails where `memory` is false.
abbrev pub trivial_solve : (memory : Bool) → Problem → Bool → Option Answer
trivial_solve memory prob canceled =
    if memory then some (record { is_failed = false; content = [] }) else none

-- What happens: the worker makes a step, a signal arrives, or the master writes a problem.
pub data Event : Type 0 where
  tick : Event
  arrives : WorkerSignal → Event
  writes : Problem → Event

-- The solver of the type of a problem looks at the flag got_cncl, and the checker is that of the type.
module _ (solve : Problem → Bool → Option Answer) (check : Answer → Problem → Bool) where
  -- By what the solver returned: a result that is right is written.
  abbrev pub judged : Problem → Option Answer → Place
  judged prob none = has_failed prob
  judged prob (some answer) = if check answer prob then has_solved prob answer else has_failed prob

  -- One step of the code at a place.
  unfoldable pub step_at : Place → Worker → Worker
  step_at at_stop w =
      if w.got_stop
      then record w { place = about_to_pause; got_stop = false }
      else record w { place = at_term }
  step_at about_to_pause w = record w { place = pausing }
  step_at pausing w = w
  step_at at_term w = record w { place = if w.got_term then gone else at_cont }
  step_at at_cont w =
      if w.got_cont
      then record w { place = reading; got_cont = false }
      else record w { place = at_stop; got_stop = true }
  step_at reading w = read_next w.stdin w
  step_at gone w = w
  step_at (has_read prob) w = record w {
    place = if w.got_term then gone else judged prob (solve prob w.got_cncl);
  }
  step_at (has_solved prob answer) w = record w {
    place = has_written;
    answers = (prob, some answer) ∷ w.answers;
  }
  step_at has_written w = record w { place = at_end; got_cncl = false }
  step_at at_end w =
      if w.got_term
      then record w { place = gone }
      else record w { place = at_stop; is_stopped = true }
  step_at (has_failed prob) w =
      if w.got_term
      then record w { place = gone }
      else record w { place = has_written_failure; answers = (prob, none) ∷ w.answers }
  step_at has_written_failure w = record w { place = at_stop; is_stopped = true; got_cncl = false }

  unfoldable pub step : Event → Worker → Worker
  unfolding step_at arrive
  step tick w = if w.is_stopped then w else step_at w.place w
  step (arrives signal) w = arrive signal w
  step (writes prob) w = record w { stdin = w.stdin ++ (prob ∷ []) }

  -- The worker under the events, in their order.
  unfoldable pub run : List Event → Worker → Worker
  unfolding step
  run [] w = w
  run (event ∷ events) w = run events (step event w)
