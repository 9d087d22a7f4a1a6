-- ===== src/Master/Log.antt =====
-- HW4-Multi-process-Problem-Solver/src/master.c: the calls of sf_change_state follow the states.
use system_fundamentals_ii_c.Prelude.{
  Bool, List, Option, [], arith, if◌then◌else◌, none, refl, some, subst, suc, sym, zero, ℕ, ◌+◌,
  ◌<◌, ◌==◌, ◌∙◌, ◌∷◌, ◌≡◌,
}
use system_fundamentals_ii_c.Master.{
  Change, Master, Signal, Status, WorkerState, aborted, change_state, continued, exited,
  has_continued, has_exited, has_stopped, idle, index_from, next_state, old_state, reap, report,
  report_at, running, set_flag, sig_master_handler, sigchld, sigpipe, started, stopped, update,
  was_killed,
}
use system_fundamentals_ii_c.Master.Loop.{init_workers, main_loop, start_from}
use system_fundamentals_ii_c.Master.Problems.{Answer, SolverMethods, Source}
use system_fundamentals_ii_c.Master.Reports.{HasOwnPids, index_from_found}
use system_fundamentals_ii_c.Master.Turns.{IsKept, Leaves, main_loop-Leaves}

-- The state that the calls leave a worker in, by its pid.
unfoldable pub state_after : List Change → (pid : ℕ) → WorkerState
state_after [] pid = started
state_after (change ∷ changes) pid =
    let rest = state_after changes pid in if change.pid == pid then change.new else rest

-- Each call names as the old state the one that the calls before it have left the worker in.
abbrev pub AreLinked : List Change → Type 0
unfolding state_after
AreLinked [] = Unit
AreLinked (change ∷ changes) = (change.old ≡ state_after changes change.pid) × AreLinked changes

-- The calls are linked, and leave each worker in the state that the array says.
pub record IsLogged (m : Master) : Type 0 where
  pub linked : AreLinked m.changes
  pub latest : (i : ℕ) → i < m.workers → state_after m.changes (m.children i) ≡ m.worker_states i
  pub own_pids : HasOwnPids m

change_state-IsLogged :
    (i : ℕ) (old : WorkerState) (new : Option WorkerState) (m : Master)
    → i < m.workers
    → old ≡ m.worker_states i
    → IsLogged m
    → IsLogged (change_state i (m.children i) old new m)
unfolding AreLinked state_after HasOwnPids
change_state-IsLogged i old none m below is logged = logged
change_state-IsLogged i old (some new) m below is logged = record {
  linked = (is ∙ sym (logged.latest i below), logged.linked);
  latest = λ j inside. ground (arith, logged.latest j inside, logged.own_pids i j below inside);
  own_pids = logged.own_pids;
}

-- The handler passes the state that the array holds.
old_state_lem : (status : Status) (st : WorkerState) → old_state status st ≡ st
old_state_lem (has_exited code) st = refl
old_state_lem has_stopped started = refl
old_state_lem has_stopped idle = refl
old_state_lem has_stopped continued = refl
old_state_lem has_stopped running = refl
old_state_lem has_stopped stopped = refl
old_state_lem has_stopped exited = refl
old_state_lem has_stopped aborted = refl
old_state_lem has_continued st = refl
old_state_lem was_killed st = refl

-- A flag does not matter.
set_flag-IsLogged : (i : ℕ) (m : Master) → IsLogged m → IsLogged (set_flag i m)
unfolding HasOwnPids
set_flag-IsLogged i m logged = record {
  linked = logged.linked;
  latest = logged.latest;
  own_pids = logged.own_pids;
}

-- The number of workers and the log.
record Keeps (workers : ℕ) (m : Master) : Type 0 where
  as_many : m.workers ≡ workers
  logged : IsLogged m

report_at-Keeps :
    (found : Option ℕ) (pid : ℕ) (status : Status) (m : Master)
    → index_from m.children m.workers 0 pid ≡ found
    → IsLogged m
    → Keeps m.workers (report_at found pid status m)
report_at-Keeps none pid status m absent logged = record { as_many = refl; logged = logged }
report_at-Keeps (some i) pid status m found logged =
    let (own, below) = index_from_found m.children m.workers 0 pid i found in
    let old = old_state status (m.worker_states i) in
    let new = next_state status (m.worker_states i) in
    record {
      as_many = workers_same new;
      logged = set_flag-IsLogged i (change_state i pid old new m) (
          subst (λ p. IsLogged (change_state i p old new m)) own
            (change_state-IsLogged i old new m (omega (arith, below))
              (old_state_lem status (m.worker_states i)) logged));
    }
  where
    workers_same :
        (new : Option WorkerState)
        → (change_state i pid (old_state status (m.worker_states i)) new m).workers ≡ m.workers
    workers_same none = refl
    workers_same (some new) = refl

reap-Keeps :
    (reports : List (ℕ × Status)) (m : Master) → IsLogged m → Keeps m.workers (reap reports m)
unfolding reap report
reap-Keeps [] m logged = record { as_many = refl; logged = logged }
reap-Keeps ((pid, status) ∷ reports) m logged =
    let first = report_at-Keeps (index_from m.children m.workers 0 pid) pid status m refl logged in
    let rest = reap-Keeps reports (report (pid, status) m) first.logged in
    record { as_many = rest.as_many ∙ first.as_many; logged = rest.logged }

sig_master_handler-Keeps :
    (signal : Signal) (m : Master) → IsLogged m → Keeps m.workers (sig_master_handler signal m)
unfolding sig_master_handler HasOwnPids
sig_master_handler-Keeps (sigchld reports) m logged = reap-Keeps reports m logged
sig_master_handler-Keeps sigpipe m logged = record {
  as_many = refl;
  logged = record { linked = logged.linked; latest = logged.latest; own_pids = logged.own_pids };
}

module _ (solvers : ℕ → SolverMethods) where
  log_kept : IsKept solvers (λ l. IsLogged l.master)
  unfolding HasOwnPids
  log_kept = record {
    by_change = λ old new i l below is logged.
        change_state-IsLogged i old (some new) l.master below is logged;
    by_flag = λ i l logged. record {
      linked = logged.linked;
      latest = logged.latest;
      own_pids = logged.own_pids;
    };
    by_sigpipe = λ l logged. record {
      linked = logged.linked;
      latest = logged.latest;
      own_pids = logged.own_pids;
    };
    by_signal = λ signal l logged. (sig_master_handler-Keeps signal l.master logged).logged;
    by_nothing = λ i l logged. logged;
    by_problem = λ i p l logged. logged;
    by_collect = λ i answer l s s' pool posted logged. logged;
  }

-- At the start the log is empty and all workers are started.
started_from :
    (n i j : ℕ) (states : ℕ → WorkerState)
    → (j < i → states j ≡ started)
    → j < i + n
    → start_from n i states j ≡ started
unfolding start_from
started_from zero i j states before below = before (omega (arith, below))
started_from (suc n) i j states before below =
    started_from n (i + 1) j (update states i started) (λ h. ground (arith, before))
      (omega (arith, below))

pub init_workers-IsLogged :
    (workers : ℕ) (pids : ℕ → ℕ) (states : ℕ → WorkerState) (flags : ℕ → Bool)
    (problems : ℕ → Option ℕ) (no_more : ℕ → ℕ)
    → ((i j : ℕ) → i < workers → j < workers → pids i ≡ pids j → i ≡ j)
    → IsLogged (init_workers workers pids states flags problems no_more).master
unfolding init_workers HasOwnPids AreLinked state_after
init_workers-IsLogged workers pids states flags problems no_more own = record {
  linked = tt;
  latest = λ i below.
      sym (started_from workers 0 i states (λ h. absurd (omega (arith, h))) (omega (arith, below)));
  own_pids = own;
}

-- The log of the master is a path for each worker, whatever signals come, whatever the workers report,
-- and whatever the arrays hold at the start: each call of sf_change_state, in the handler and in the
-- main loop, passes as the old state, be it a constant or what the array holds, the one that the calls
-- before it have left the worker in, and the last one of a worker names the state that worker_states
-- holds for it. The workers have pids of their own. It holds when the loop ends, and whenever it is
-- suspended.
pub main_loop-IsLogged :
    (solvers : ℕ → SolverMethods) (fuel workers : ℕ) (pids : ℕ → ℕ) (states : ℕ → WorkerState)
    (flags : ℕ → Bool) (problems : ℕ → Option ℕ) (no_more : ℕ → ℕ) (answers : ℕ → Answer)
    (turns : List (Signal × (ℕ → Answer))) (s : Source)
    → ((i j : ℕ) → i < workers → j < workers → pids i ≡ pids j → i ≡ j)
    → Leaves
        (λ l. IsLogged l.master)
        (main_loop solvers fuel answers turns
          (init_workers workers pids states flags problems no_more)
          s)
main_loop-IsLogged solvers fuel workers pids states flags problems no_more answers turns s own =
    main_loop-Leaves solvers fuel (λ l. IsLogged l.master) (log_kept solvers) answers turns
      (init_workers workers pids states flags problems no_more) s
      (init_workers-IsLogged workers pids states flags problems no_more own)
