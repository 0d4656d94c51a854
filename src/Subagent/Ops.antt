-- ===== src/Subagent/Ops.antt =====
-- The end of a task, its cancellation and the watchdog (src/subagent.rs).
use openpaw.Prelude.{
  ℕ, ◌+◌, Bool, not, ◌&&◌, Option, none, some, List, [], ◌∷◌, ◌++◌, String, nat_keyed, ltb, ◌==◌,
  retain, if◌then◌else◌,
}
use openpaw.Dict
use openpaw.Subagent.{
  TaskStatus, queued, running, completed, failed, cancelled, TaskState, PendingTask, Notice,
  has_completed, has_failed, was_cancelled, timed_out, Report, SubagentManager, is_running,
  is_cancelled,
}
use openpaw.Subagent.Launch.{Request, spawn, report_unless}
use openpaw.Subagent.Drain.{drain_pending}

-- The result of `agent.turn`.
pub data Outcome : Type 0 where
  response error : String → Outcome

abbrev pub finish : Outcome → ℕ → TaskState → TaskState
finish (response text) now t = record t {
  status = completed;
  result = some text;
  completed_at = some now;
}
finish (error text) now t = record t {
  status = failed;
  error_msg = some text;
  completed_at = some now;
}

abbrev pub finish_notice : ℕ → Outcome → Notice
finish_notice id (response text) = has_completed id text
finish_notice id (error text) = has_failed id text

abbrev pub report_of : TaskState → Notice → Report
report_of t notice = record {
  channel = t.origin_channel;
  chat_id = t.origin_chat_id;
  label = t.label;
  notice = notice;
}

-- The end of the spawned task, for what `get_mut` finds; a cancelled task returns before the queue is
-- drained.
unfoldable pub finish_found : Option TaskState → SubagentManager → ℕ → Outcome → ℕ → SubagentManager
finish_found none s task_id outcome now = drain_pending s now
finish_found (some t) s task_id outcome now =
    if is_cancelled t.status
    then s
    else drain_pending
        (record s {
          tasks = Dict.update task_id (finish outcome now) s.tasks;
          outbox =
              s.outbox
              ++ report_unless t.suppress_report (report_of t (finish_notice task_id outcome));
        })
        now

-- What runs in the spawned task after `agent.turn` has returned.
unfoldable pub complete : SubagentManager → ℕ → Outcome → ℕ → SubagentManager
unfolding finish_found
complete s task_id outcome now = finish_found (Dict.get task_id s.tasks) s task_id outcome now

pub data CancelReply : Type 0 where
  ok not_found : CancelReply
  already : TaskStatus → CancelReply

abbrev pub to_cancelled : ℕ → TaskState → TaskState
to_cancelled now t = record t { status = cancelled; completed_at = some now }

-- `abort_handle.take()` of a running task.
abbrev pub to_aborted : ℕ → TaskState → TaskState
to_aborted now t = record t { status = cancelled; completed_at = some now; abort_handle = none }

-- The match on the status of the task that was found.
unfoldable pub cancel_in :
    TaskStatus → TaskState → SubagentManager → ℕ → ℕ → SubagentManager × CancelReply
cancel_in queued t s task_id now = (
  record s {
    pending = retain (λ p. not (PendingTask.task_id p == task_id)) s.pending;
    tasks = Dict.update task_id (to_cancelled now) s.tasks;
  },
  ok,
)
cancel_in running t s task_id now = (
  record s {
    tasks = Dict.update task_id (to_aborted now) s.tasks;
    outbox = s.outbox ++ report_of t (was_cancelled task_id) ∷ [];
  },
  ok,
)
cancel_in status t s task_id now = (s, already status)

unfoldable pub cancel_task : SubagentManager → ℕ → ℕ → SubagentManager × CancelReply
unfolding cancel_in
cancel_task s task_id now = elim (Dict.get task_id s.tasks) [
  | none ↦ (s, not_found)
  | some t ↦ cancel_in t.status t s task_id now
]

abbrev pub is_overdue : ℕ → TaskState → Bool
is_overdue now t = is_running t.status && ltb (t.started_at + 3600) now

abbrev pub to_timed_out : ℕ → TaskState → TaskState
to_timed_out now t = record t {
  status = failed;
  error_msg = some "Task timed out (exceeded 1 hour)";
  completed_at = some now;
  abort_handle = none;
}

abbrev pub watch : ℕ → TaskState → TaskState
watch now t = if is_overdue now t then to_timed_out now t else t

-- The reports of the watchdog, in the order of the map.
unfoldable pub watch_reports : ℕ → List (ℕ × TaskState) → List Report
watch_reports now [] = []
watch_reports now ((id, t) ∷ m) =
    (if is_overdue now t then report_unless t.suppress_report (report_of t (timed_out id)) else [])
    ++ watch_reports now m

-- The first half of `monitor_tick`, under the lock.
unfoldable pub watchdog : SubagentManager → ℕ → SubagentManager
unfolding watch_reports
watchdog s now = record s {
  tasks = Dict.map_values (watch now) s.tasks;
  outbox = s.outbox ++ watch_reports now s.tasks;
}

unfoldable pub monitor_tick : SubagentManager → ℕ → SubagentManager
unfolding watchdog
monitor_tick s now = drain_pending (watchdog s now) now

abbrev option_status : Option TaskState → Option TaskStatus
option_status none = none
option_status (some t) = some t.status

unfoldable pub get_task_status : SubagentManager → ℕ → Option TaskStatus
get_task_status s task_id = option_status (Dict.get task_id s.tasks)

abbrev option_result : Option TaskState → Option String
option_result none = none
option_result (some t) = t.result

unfoldable pub get_task_result : SubagentManager → ℕ → Option String
get_task_result s task_id = option_result (Dict.get task_id s.tasks)

-- What happens to the manager, each at a time: calls of its methods, and the end of a spawned task.
pub data Event : Type 0 where
  spawns : Request → ℕ → Event
  completes : ℕ → Outcome → ℕ → Event
  cancels : ℕ → ℕ → Event
  ticks : ℕ → Event

unfoldable pub step : SubagentManager → Event → SubagentManager
step s (spawns r now) = (spawn s r now).0
step s (completes task_id outcome now) = complete s task_id outcome now
step s (cancels task_id now) = (cancel_task s task_id now).0
step s (ticks now) = monitor_tick s now

unfoldable pub run : SubagentManager → List Event → SubagentManager
run s [] = s
run s (e ∷ es) = run (step s e) es
