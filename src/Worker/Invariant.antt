-- ===== src/Worker/Invariant.antt =====
-- HW4-Multi-process-Problem-Solver/src/worker.c: what holds of a worker whatever happens.
use system_fundamentals_ii_c.Prelude.{
  Bool, Bool-cases, List, Option, [], ap, false, if◌then◌else◌, inl, inr, map, none, refl, some,
  subst, sym, true, ◌∷◌, ◌≡◌,
}
use system_fundamentals_ii_c.Master.Problems.{Answer, Problem}
use system_fundamentals_ii_c.Worker.{
  Event, Place, Worker, about_to_pause, arrives, at_cont, at_end, at_stop, at_term, gone,
  has_failed, has_read, has_solved, has_written, has_written_failure, judged, pausing, reading, run,
  sigcont, sighup, sigstop, sigterm, start, step, step_at, tick, woken, writes,
}

-- Nobody but the worker itself sends SIGSTOP.
abbrev pub IsFree : List Event → Type 0
IsFree [] = Unit
IsFree (arrives sigstop ∷ events) = ⊥
IsFree (_ ∷ events) = IsFree events

module _ (solve : Problem → Bool → Option Answer) (check : Answer → Problem → Bool) where
  -- The results that are written are right for the problems that they are written for.
  abbrev pub AreRight : List (Problem × Option Answer) → Type 0
  AreRight [] = Unit
  AreRight ((prob, none) ∷ answers) = AreRight answers
  AreRight ((prob, some answer) ∷ answers) = (check answer prob ≡ true) × AreRight answers

  abbrev pub answered : List (Problem × Option Answer) → List Problem
  answered answers = map (λ a. a.0) answers

  -- What holds at a place: which of the problems that are read are answered, and the flags there.
  abbrev pub Holds :
      Place → (is_stopped got_stop got_cont : Bool) → (received done : List Problem) → Type 0
  Holds at_stop true got_stop got_cont received done = (got_stop ≡ false) × (received ≡ done)
  Holds at_stop false got_stop got_cont received done =
      (got_stop ≡ false) × (got_cont ≡ true) × (received ≡ done)
  Holds at_term false got_stop got_cont received done =
      (got_stop ≡ false) × (got_cont ≡ true) × (received ≡ done)
  Holds at_cont false got_stop got_cont received done =
      (got_stop ≡ false) × (got_cont ≡ true) × (received ≡ done)
  Holds reading false got_stop got_cont received done = (got_stop ≡ false) × (received ≡ done)
  Holds (has_read prob) false got_stop got_cont received done =
      (got_stop ≡ false) × (received ≡ prob ∷ done)
  Holds (has_solved prob answer) false got_stop got_cont received done =
      (got_stop ≡ false) × (received ≡ prob ∷ done) × (check answer prob ≡ true)
  Holds (has_failed prob) false got_stop got_cont received done =
      (got_stop ≡ false) × (received ≡ prob ∷ done)
  Holds has_written false got_stop got_cont received done = (got_stop ≡ false) × (received ≡ done)
  Holds has_written_failure false got_stop got_cont received done =
      (got_stop ≡ false) × (received ≡ done)
  Holds at_end false got_stop got_cont received done = (got_stop ≡ false) × (received ≡ done)
  Holds gone false got_stop got_cont received done = Unit
  Holds _ is_stopped got_stop got_cont received done = ⊥

  pub record IsFine (w : Worker) : Type 0 where
    pub holds : Holds w.place w.is_stopped w.got_stop w.got_cont w.received (answered w.answers)
    pub right : AreRight w.answers

  abbrev worker :
      Place
      → (is_stopped got_stop got_cont got_term got_cncl : Bool) → (stdin received : List Problem)
      → List (Problem × Option Answer)
      → Worker
  worker place is_stopped got_stop got_cont got_term got_cncl stdin received answers = record {
    place = place;
    is_stopped = is_stopped;
    got_stop = got_stop;
    got_cont = got_cont;
    got_term = got_term;
    got_cncl = got_cncl;
    stdin = stdin;
    received = received;
    answers = answers;
  }

  -- The attempt at a problem.
  judged-Holds :
      (prob : Problem) (attempt : Option Answer) (got_stop got_cont : Bool)
      (received done : List Problem)
      → got_stop ≡ false
      → received ≡ prob ∷ done
      → Holds (judged solve check prob attempt) false got_stop got_cont received done
  judged-Holds prob none got_stop got_cont received done s r = (s, r)
  judged-Holds prob (some answer) got_stop got_cont received done s r =
      elim (Bool-cases (check answer prob)) [
        | inl right ↦
            let solved : Holds (has_solved prob answer) false got_stop got_cont received done =
              (s, r, right) in
            subst
              (λ b.
                Holds (if b then has_solved prob answer else has_failed prob) false got_stop
                  got_cont received done)
              (sym right) solved
        | inr wrong ↦
            let failed : Holds (has_failed prob) false got_stop got_cont received done = (s, r) in
            subst
              (λ b.
                Holds (if b then has_solved prob answer else has_failed prob) false got_stop
                  got_cont received done)
              (sym wrong) failed
      ]

  -- A step of the code.
  step_at-IsFine :
      (place : Place) (got_stop got_cont got_term got_cncl : Bool) (stdin received : List Problem)
      (answers : List (Problem × Option Answer))
      → Holds place false got_stop got_cont received (answered answers)
      → AreRight answers
      → IsFine (
          step_at solve check place
            (worker place false got_stop got_cont got_term got_cncl stdin received answers))
  unfolding step_at
  step_at-IsFine at_stop true c t n i r a h right = absurd (cc h.0)
  step_at-IsFine at_stop false c t n i r a h right = record { holds = h; right = right }
  step_at-IsFine at_term s c true n i r a h right = record { holds = tt; right = right }
  step_at-IsFine at_term s c false n i r a h right = record { holds = h; right = right }
  step_at-IsFine at_cont s true t n i r a h right = record { holds = (h.0, h.2); right = right }
  step_at-IsFine at_cont s false t n i r a h right = absurd (cc h.1)
  step_at-IsFine reading s c t n [] r a h right = record { holds = h; right = right }
  step_at-IsFine reading s c t n (prob ∷ i) r a h right = record {
    holds = (h.0, ap (prob ∷◌) h.1);
    right = right;
  }
  step_at-IsFine gone s c t n i r a h right = record { holds = tt; right = right }
  step_at-IsFine (has_read prob) s c true n i r a h right = record { holds = tt; right = right }
  step_at-IsFine (has_read prob) s c false n i r a h right = record {
    holds = judged-Holds prob (solve prob n) s c r (answered a) h.0 h.1;
    right = right;
  }
  step_at-IsFine (has_solved prob answer) s c t n i r a h right = record {
    holds = (h.0, h.1);
    right = (h.2, right);
  }
  step_at-IsFine has_written s c t n i r a h right = record { holds = h; right = right }
  step_at-IsFine at_end s c true n i r a h right = record { holds = tt; right = right }
  step_at-IsFine at_end s c false n i r a h right = record { holds = h; right = right }
  step_at-IsFine (has_failed prob) s c true n i r a h right = record { holds = tt; right = right }
  step_at-IsFine (has_failed prob) s c false n i r a h right = record { holds = h; right = right }
  step_at-IsFine has_written_failure s c t n i r a h right = record { holds = h; right = right }
  step_at-IsFine about_to_pause s c t n i r a h right = elim h [ ]
  step_at-IsFine pausing s c t n i r a h right = elim h [ ]

  tick-IsFine :
      (w : Worker) (is_stopped : Bool)
      → w.is_stopped ≡ is_stopped
      → IsFine w
      → IsFine (if is_stopped then w else step_at solve check w.place w)
  tick-IsFine w true stays fine = fine
  tick-IsFine w false goes_on fine =
      subst (λ x. IsFine (step_at solve check w.place x))
        (sym (ap (λ b. record w { is_stopped = b }) goes_on))
        (step_at-IsFine w.place w.got_stop w.got_cont w.got_term w.got_cncl w.stdin w.received
          w.answers
          (subst (λ b. Holds w.place b w.got_stop w.got_cont w.received (answered w.answers))
            goes_on fine.holds)
          fine.right)

  -- SIGCONT sets its flag, and the worker goes on.
  continued-Holds :
      (place : Place) (is_stopped got_stop got_cont : Bool) (received done : List Problem)
      → Holds place is_stopped got_stop got_cont received done
      → Holds (woken place) false got_stop true received done
  continued-Holds at_stop true s c r d h = (h.0, refl, h.1)
  continued-Holds at_stop false s c r d h = (h.0, refl, h.2)
  continued-Holds at_term false s c r d h = (h.0, refl, h.2)
  continued-Holds at_cont false s c r d h = (h.0, refl, h.2)
  continued-Holds (has_read prob) false s c r d h = h
  continued-Holds pausing false s c r d h = elim h [ ]
  continued-Holds pausing true s c r d h = elim h [ ]
  continued-Holds _ false s c r d h = h
  continued-Holds _ true s c r d h = elim h [ ]

  -- The other signals wake nobody.
  woken-Holds :
      (place : Place) (is_stopped got_stop got_cont : Bool) (received done : List Problem)
      → Holds place is_stopped got_stop got_cont received done
      → Holds (woken place) is_stopped got_stop got_cont received done
  woken-Holds pausing true s c r d h = elim h [ ]
  woken-Holds pausing false s c r d h = elim h [ ]
  woken-Holds _ is_stopped s c r d h = h

  step-IsFine :
      (event : Event) (events : List Event) (w : Worker)
      → IsFree (event ∷ events)
      → IsFine w
      → IsFine (step solve check event w)
  unfolding step
  step-IsFine tick events w free fine = tick-IsFine w w.is_stopped refl fine
  step-IsFine (arrives sigcont) events w free fine = record {
    holds =
        continued-Holds w.place w.is_stopped w.got_stop w.got_cont w.received (answered w.answers)
          fine.holds;
    right = fine.right;
  }
  step-IsFine (arrives sigterm) events w free fine = record {
    holds =
        woken-Holds w.place w.is_stopped w.got_stop w.got_cont w.received (answered w.answers)
          fine.holds;
    right = fine.right;
  }
  step-IsFine (arrives sighup) events w free fine = record {
    holds =
        woken-Holds w.place w.is_stopped w.got_stop w.got_cont w.received (answered w.answers)
          fine.holds;
    right = fine.right;
  }
  step-IsFine (arrives sigstop) events w free fine = elim free [ ]
  step-IsFine (writes prob) events w free fine = record { holds = fine.holds; right = fine.right }

  IsFree-after : (event : Event) (events : List Event) → IsFree (event ∷ events) → IsFree events
  IsFree-after tick events free = free
  IsFree-after (arrives sigcont) events free = free
  IsFree-after (arrives sigterm) events free = free
  IsFree-after (arrives sighup) events free = free
  IsFree-after (arrives sigstop) events free = elim free [ ]
  IsFree-after (writes prob) events free = free

  run-IsFine :
      (events : List Event) (w : Worker)
      → IsFree events
      → IsFine w
      → IsFine (run solve check events w)
  unfolding run
  run-IsFine [] w free fine = fine
  run-IsFine (event ∷ events) w free fine =
      run-IsFine events (step solve check event w) (IsFree-after event events free)
        (step-IsFine event events w free fine)

  start-IsFine : IsFine start
  unfolding start
  start-IsFine = record { holds = (refl, refl); right = tt }

  pub reached : (events : List Event) → IsFree events → IsFine (run solve check events start)
  reached events free = run-IsFine events start free start-IsFine
