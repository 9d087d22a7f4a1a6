-- ===== src/Master/Loop.antt =====
-- HW4-Multi-process-Problem-Solver/src/master.c: the main loop of master. kill() succeeds.
use system_fundamentals_ii_c.Prelude.{
  Bool, List, Option, [], false, if◌then◌else◌, leb, none, some, suc, zero, ℕ, ◌&&◌, ◌+◌, ◌==◌, ◌∷◌,
}
use system_fundamentals_ii_c.Master.{
  Master, Signal, WorkerState, aborted, change_state, continued, exited, idle, is_all_idle, running,
  sig_master_handler, started, stopped, update,
}
use system_fundamentals_ii_c.Master.Problems.{
  Answer, Reply, SolverMethods, Source, get_problem_variant, gives, reads_freed, still_running,
}
use system_fundamentals_ii_c.Master.Rounds.{Pool, collect}

-- The state of the loop. `sent` holds the problems that are written, with the worker whose pipe they go
-- into, and `resumed` the workers that SIGCONT went to; the latest is the first.
pub record Loop : Type 0 where
  pub master : Master
  pub pool : Pool
  pub no_more_problems : ℕ → ℕ
  pub sent : List (ℕ × ℕ)
  pub resumed : List ℕ

-- The loop of init_workers in the parent: the workers up to `workers` are started.
unfoldable pub start_from : (rounds i : ℕ) → (ℕ → WorkerState) → ℕ → WorkerState
start_from zero i states = states
start_from (suc n) i states = start_from n (i + 1) (update states i started)

-- What master has when init_workers returns. `changes` begins behind the calls of sf_change_state from 0
-- to WORKER_STARTED. The arrays hold whatever is in the memory, but for the states and the pids.
unfoldable pub init_workers :
    (workers : ℕ) (pids : ℕ → ℕ) (states : ℕ → WorkerState) (flags : ℕ → Bool)
    (problems : ℕ → Option ℕ) (no_more : ℕ → ℕ)
    → Loop
unfolding start_from
init_workers workers pids states flags problems no_more = record {
  master = record {
    workers = workers;
    children = pids;
    worker_states = start_from workers 0 states;
    sigchld_flag = flags;
    sigpipe_flag = false;
    changes = [];
  };
  pool = record { current_problems = problems; canceled = [] };
  no_more_problems = no_more;
  sent = [];
  resumed = [];
}

-- sf_change_state, called with an old and a new state, and the assignment of the new state, for the
-- worker `i`.
abbrev pub change_to : (old new : WorkerState) (i : ℕ) → Loop → Loop
change_to old new i l = record l {
  master = change_state i (l.master.children i) old (some new) l.master;
}

-- The end of assign_prob_to_worker, and what is done with what it returns. exit() is `none`.
abbrev pub handed : (i : ℕ) → Loop → Reply (Option ℕ) → Reply (Option Loop)
handed i l reads_freed = reads_freed
handed i l still_running = still_running
handed i l (gives none s) =
    gives
      (some (record l {
        pool = record l.pool { current_problems = update l.pool.current_problems i none };
        no_more_problems = update l.no_more_problems i 1;
      }))
      s
handed i l (gives (some p) s) =
    gives
      (some (record (change_to (l.master.worker_states i) continued i l) {
        pool = record l.pool { current_problems = update l.pool.current_problems i (some p) };
        no_more_problems = update l.no_more_problems i 0;
        sent = (i, p) ∷ l.sent;
        resumed = i ∷ l.resumed;
      }))
      s

-- `sigchld_flag[i] = 0`
abbrev pub clear_flag : (i : ℕ) → Loop → Loop
clear_flag i l = record l {
  master = record l.master { sigchld_flag = update l.master.sigchld_flag i false };
}

-- The loop that counts the workers that there is no problem for, from `i` on.
unfoldable pub count_no_more : (ℕ → ℕ) → (rounds i : ℕ) → ℕ
count_no_more no_more zero i = 0
count_no_more no_more (suc n) i =
    let rest = count_no_more no_more n (i + 1) in if no_more i == 1 then suc rest else rest

-- Whether the loop ends.
unfoldable pub is_done : Loop → Bool
unfolding count_no_more is_all_idle
is_done l =
    leb l.master.workers (count_no_more l.no_more_problems l.master.workers 0)
    && is_all_idle l.master.workers l.master

-- `sigpipe_flag = 0`
abbrev pub clear_sigpipe : Loop → Loop
clear_sigpipe l = record l { master = record l.master { sigpipe_flag = false } }

-- The loop ends with `break`; it calls exit; it is suspended when there are no more signals; or it is in
-- one of the ways that a call does not return.
pub data Main : Type 0 where
  breaks suspends : Loop → Source → Main
  fails reads_memory draws_forever : Main

-- The fuel is that of get_problem_variant.
module _ (solvers : ℕ → SolverMethods) (fuel : ℕ) where
  unfoldable pub assign_prob_to_worker : (i : ℕ) → Loop → Source → Reply (Option Loop)
  unfolding get_problem_variant
  assign_prob_to_worker i l s = handed i l (get_problem_variant solvers fuel l.master.workers i s)

  -- A worker that has stopped: its result is posted, if it has a problem, and it is idle.
  unfoldable pub after_collect : (i : ℕ) → Loop → Reply Pool → Reply (Option Loop)
  unfolding assign_prob_to_worker
  after_collect i l reads_freed = reads_freed
  after_collect i l still_running = still_running
  after_collect i l (gives pool s) =
      assign_prob_to_worker i (change_to stopped idle i (record l { pool = pool })) s

  -- The branches on the state of a worker whose flag is set. The answer is what read_result gives.
  unfoldable pub visit_state : WorkerState → (i : ℕ) → Answer → Loop → Source → Reply (Option Loop)
  unfolding after_collect collect
  visit_state continued i answer l s = gives (some l) s
  visit_state started i answer l s = gives (some (change_to started idle i l)) s
  visit_state idle i answer l s = assign_prob_to_worker i l s
  visit_state running i answer l s = gives (some l) s
  visit_state stopped i answer l s =
      after_collect i l (collect solvers l.master.workers i answer l.pool s)
  visit_state aborted i answer l s = gives none s
  visit_state exited i answer l s = gives (some l) s

  unfoldable pub visit : (i : ℕ) → Answer → Loop → Source → Reply (Option Loop)
  unfolding visit_state
  visit i answer l s =
      if l.master.sigchld_flag i
      then visit_state (l.master.worker_states i) i answer (clear_flag i l) s
      else gives (some l) s

  -- The loop over the workers, from `i` on. `answers` says what is in their pipes.
  unfoldable pub visit_from :
      (rounds i : ℕ) (answers : ℕ → Answer) → Loop → Source → Reply (Option Loop)
  unfolding visit
  visit_from zero i answers l s = gives (some l) s
  visit_from (suc n) i answers l s = elim (visit i (answers i) l s) [
    | reads_freed ↦ reads_freed
    | still_running ↦ still_running
    | gives none s' ↦ gives none s'
    | gives (some l') s' ↦ visit_from n (i + 1) answers l' s'
  ]

  -- The main loop: for each turn, what the pipes hold, and the signal that sigsuspend waits for after it.
  unfoldable pub main_loop :
      (answers : ℕ → Answer) → List (Signal × (ℕ → Answer)) → Loop → Source → Main
  unfolding visit_from sig_master_handler is_done
  main_loop answers [] l s = elim (visit_from l.master.workers 0 answers (clear_sigpipe l) s) [
    | reads_freed ↦ reads_memory
    | still_running ↦ draws_forever
    | gives none s' ↦ fails
    | gives (some l') s' ↦ if is_done l' then breaks l' s' else suspends l' s'
  ]
  main_loop answers ((signal, answers') ∷ turns) l s =
      elim (visit_from l.master.workers 0 answers (clear_sigpipe l) s) [
        | reads_freed ↦ reads_memory
        | still_running ↦ draws_forever
        | gives none s' ↦ fails
        | gives (some l') s' ↦
            let rest =
              main_loop answers' turns (record l' { master = sig_master_handler signal l'.master })
                s' in
            if is_done l' then breaks l' s' else rest
      ]
