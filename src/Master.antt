-- ===== src/Master.antt =====
-- HW4-Multi-process-Problem-Solver/src/master.c: what the master knows of its workers, by the signals
-- SIGCHLD, and how it ends.
pub mod Reports
pub mod Ending
pub mod Killed
pub mod Problems
pub mod Rounds
pub mod Loop
pub mod Turns
pub mod Log
pub mod Sent
pub mod Break
pub mod Options
mod Tests
use system_fundamentals_ii_c.Prelude.{
  Bool, List, Option, [], false, if◌then◌else◌, leb, none, some, suc, true, zero, ℕ, ◌+◌, ◌==◌, ◌∷◌,
}

-- WORKER_STARTED to WORKER_ABORTED
pub data WorkerState : Type 0 where
  started idle continued running stopped exited aborted : WorkerState

-- What waitpid reports of a child: WIFEXITED with a status, WIFSTOPPED, WIFCONTINUED, or none of the
-- three, where a signal has ended the child.
pub data Status : Type 0 where
  has_exited : ℕ → Status
  has_stopped has_continued was_killed : Status

-- One call of sf_change_state.
pub record Change : Type 0 where
  pub pid : ℕ
  pub old : WorkerState
  pub new : WorkerState

-- The variables of the master: `workers` is tot_workers.
pub record Master : Type 0 where
  pub workers : ℕ
  pub children : ℕ → ℕ
  pub worker_states : ℕ → WorkerState
  pub sigchld_flag : ℕ → Bool
  pub sigpipe_flag : Bool
  pub changes : List Change

abbrev pub update {ℓ} : {A : Type ℓ} → (ℕ → A) → ℕ → A → ℕ → A
update f a v x = if x == a then v else f x

-- The loop that looks for the index of a child, from `j` on for `rounds` workers.
unfoldable pub index_from : (ℕ → ℕ) → (rounds j pid : ℕ) → Option ℕ
index_from children zero j pid = none
index_from children (suc n) j pid =
    let rest = index_from children n (j + 1) pid in if children j == pid then some j else rest

-- get_index_for_pid; `none` is -1.
unfoldable pub get_index_for_pid : ℕ → ℕ → (ℕ → ℕ) → Option ℕ
unfolding index_from
get_index_for_pid cid size cpids = index_from cpids size 0 cid

-- The state that a worker goes to from `old`, if sf_change_state is called.
abbrev pub stop_state : WorkerState → WorkerState
stop_state started = idle
stop_state idle = idle
stop_state stopped = idle
stop_state _ = stopped

abbrev pub next_state : Status → WorkerState → Option WorkerState
next_state (has_exited code) old = if code == 0 then some exited else some aborted
next_state has_stopped old = some (stop_state old)
next_state has_continued old = some running
next_state was_killed old = none

-- The state that the handler passes to sf_change_state as the old one: for an idle worker that stops it
-- is the constant WORKER_IDLE, and else what worker_states holds.
abbrev pub old_state : Status → WorkerState → WorkerState
old_state has_stopped idle = idle
old_state status st = st

-- sf_change_state, called with an old and a new state, and the assignment of the new state.
abbrev pub change_state : ℕ → ℕ → WorkerState → Option WorkerState → Master → Master
change_state i pid old none m = m
change_state i pid old (some new) m = record m {
  worker_states = update m.worker_states i new;
  changes = record { pid = pid; old = old; new = new } ∷ m.changes;
}

-- `sigchld_flag[i] = 1`
abbrev pub set_flag : ℕ → Master → Master
set_flag i m = record m { sigchld_flag = update m.sigchld_flag i true }

-- One round of the loop on waitpid: a pid that is no child's is passed over.
abbrev pub report_at : Option ℕ → ℕ → Status → Master → Master
report_at none pid status m = m
report_at (some i) pid status m = set_flag i (
    change_state i pid (old_state status (m.worker_states i))
      (next_state status (m.worker_states i)) m)

unfoldable pub report : ℕ × Status → Master → Master
unfolding index_from
report (pid, status) m = report_at (index_from m.children m.workers 0 pid) pid status m

-- The loop: `reports` is what waitpid returns, one after the other.
unfoldable pub reap : List (ℕ × Status) → Master → Master
unfolding report
reap [] m = m
reap (r ∷ reports) m = reap reports (report r m)

-- The signals that the master handles. With SIGCHLD come the reports that are then there.
pub data Signal : Type 0 where
  sigchld : List (ℕ × Status) → Signal
  sigpipe : Signal

unfoldable pub sig_master_handler : Signal → Master → Master
unfolding reap
sig_master_handler (sigchld reports) m = reap reports m
sig_master_handler sigpipe m = record m { sigpipe_flag = true }

abbrev pub is_idle : WorkerState → Bool
is_idle idle = true
is_idle _ = false

-- is_all_idle, from `i` on.
unfoldable pub all_idle_from : (ℕ → WorkerState) → (rounds i : ℕ) → Bool
all_idle_from states zero i = true
all_idle_from states (suc n) i =
    let rest = all_idle_from states n (i + 1) in if is_idle (states i) then rest else false

unfoldable pub is_all_idle : ℕ → Master → Bool
unfolding all_idle_from
is_all_idle workers m = all_idle_from m.worker_states workers 0

-- Whether a worker counts as ended, and whether it ended well.
abbrev pub has_ended : WorkerState → Bool
has_ended exited = true
has_ended aborted = true
has_ended _ = false

abbrev pub is_exited : WorkerState → Bool
is_exited exited = true
is_exited _ = false

-- The loop that counts the workers that have ended.
unfoldable pub count_ended : (ℕ → WorkerState) → (rounds i : ℕ) → ℕ
count_ended states zero i = 0
count_ended states (suc n) i =
    let rest = count_ended states n (i + 1) in if has_ended (states i) then suc rest else rest

-- The last loop: EXIT_FAILURE at the first worker that did not exit.
unfoldable pub all_exited_from : (ℕ → WorkerState) → (rounds i : ℕ) → Bool
all_exited_from states zero i = true
all_exited_from states (suc n) i =
    let rest = all_exited_from states n (i + 1) in if is_exited (states i) then rest else false

-- What the process exits with: `waits` where it is suspended for ever.
pub data ExitCode : Type 0 where
  exit_success exit_failure waits : ExitCode

abbrev pub ending : Bool → ExitCode
ending true = exit_success
ending false = exit_failure

-- The end of master: it counts, and waits for a signal until all workers have ended. The list holds
-- the signals that arrive.
unfoldable pub finish : List Signal → Master → ExitCode
unfolding sig_master_handler count_ended all_exited_from
finish [] m =
    if leb m.workers (count_ended m.worker_states m.workers 0)
    then ending (all_exited_from m.worker_states m.workers 0)
    else waits
finish (signal ∷ signals) m =
    let rest = finish signals (sig_master_handler signal m) in
    if leb m.workers (count_ended m.worker_states m.workers 0)
    then ending (all_exited_from m.worker_states m.workers 0)
    else rest
