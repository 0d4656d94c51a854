-- ===== src/Subagent/Launch.antt =====
-- Spawning a task (src/subagent.rs, `spawn_with_agent_internal` and `launch_task_locked`).
use openpaw.Prelude.{
  ℕ, ◌+◌, ◌%◌, ◌^◌, Bool, true, false, Option, none, some, List, [], ◌∷◌, ◌++◌, String,
  string_keyed, nat_keyed, ◌=?◌, count, any, leb, if◌then◌else◌,
}
use openpaw.Dict
use openpaw.Subagent.{
  TaskStatus, queued, running, TaskState, PendingTask, is_queued, Report, SubagentManager,
  is_running,
}

-- A call of `spawn`: the arguments of `spawn_with_agent_internal`.
pub record Request : Type 0 where
  pub task : String
  pub label : String
  pub origin_channel : String
  pub origin_chat_id : String
  pub agent_name : Option String
  pub suppress_report : Bool

unfoldable pub new : ℕ → List String → SubagentManager
new max_concurrent agents = record {
  tasks = [];
  next_id = 1;
  max_concurrent = max_concurrent;
  agents = agents;
  pending = [];
  outbox = [];
}

unfoldable pub running_count : List (ℕ × TaskState) → ℕ
running_count = count (λ e. is_running (TaskState.status e.1))

-- The state of a task that enters the map.
abbrev pub fresh : TaskStatus → Option ℕ → Request → ℕ → TaskState
fresh status session_key r now = record {
  status = status;
  label = r.label;
  session_key = session_key;
  result = none;
  error_msg = none;
  started_at = now;
  completed_at = none;
  last_heartbeat = now;
  iteration_count = 0;
  origin_channel = r.origin_channel;
  origin_chat_id = r.origin_chat_id;
  abort_handle = none;
  suppress_report = r.suppress_report;
}

-- Whether the profile that a request names, if it names one, is unknown.
abbrev pub is_unknown : List String → Option String → Bool
is_unknown agents none = false
is_unknown agents (some name) = if any (λ a. a =? name) agents then false else true

abbrev pub set_handle : ℕ → TaskState → TaskState
set_handle id t = record t { abort_handle = some id }

-- `none` is the error "Unknown agent profile".
unfoldable pub launch_task_locked : SubagentManager → ℕ → Request → ℕ → SubagentManager × Option ℕ
launch_task_locked s task_id r now =
    let tasks = Dict.insert task_id (fresh running (some task_id) r now) s.tasks in
    if is_unknown s.agents r.agent_name
    then (record s { tasks = Dict.remove task_id tasks }, none)
    else (record s { tasks = Dict.update task_id (set_handle task_id) tasks }, some task_id)

abbrev pub to_pending : ℕ → Request → PendingTask
to_pending task_id r = record {
  task_id = task_id;
  task = r.task;
  label = r.label;
  origin_channel = r.origin_channel;
  origin_chat_id = r.origin_chat_id;
  agent_name = r.agent_name;
}

abbrev pub report_unless : Bool → Report → List Report
report_unless true r = []
report_unless false r = r ∷ []

-- The branch of a full manager: the task is queued.
unfoldable pub enqueue : SubagentManager → ℕ → Request → ℕ → SubagentManager
unfolding running_count
enqueue s task_id r now =
    let report : Report = record {
      channel = r.origin_channel;
      chat_id = r.origin_chat_id;
      label = r.label;
      notice = is_queued task_id (running_count s.tasks);
    } in
    record s {
      pending = s.pending ++ to_pending task_id r ∷ [];
      tasks = Dict.insert task_id (fresh queued none r now) s.tasks;
      outbox = s.outbox ++ report_unless r.suppress_report report;
    }

unfoldable pub spawn : SubagentManager → Request → ℕ → SubagentManager × Option ℕ
unfolding running_count enqueue launch_task_locked
spawn s r now =
    let task_id = s.next_id in
    let s' = record s { next_id = (task_id + 1) % 2 ^ 64 } in
    if leb s.max_concurrent (running_count s.tasks)
    then (enqueue s' task_id r now, some task_id)
    else launch_task_locked s' task_id r now
