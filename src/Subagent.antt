-- ===== src/Subagent.antt =====
-- The background tasks of the main agent (src/subagent.rs): its data.
-- Behind the mutexes the manager keeps the tasks, the queue and the next id; of the configuration it
-- reads the limit and the names of the agent profiles. A tokio task and its abort handle are known by
-- the task's id; a session key `subagent:{id}` by its id. What goes to the bus is kept in `outbox`,
-- oldest first: publishing is taken not to wait for room. An operation reads the clock once, as its
-- argument `now`.
pub mod Launch
pub mod Drain
pub mod Rounds
pub mod Ops
pub mod Counting
pub mod Capacity
pub mod Queue
pub mod Waiting
pub mod Sections
pub mod Final
pub mod Edges
pub mod Race
mod Tests
use openpaw.Prelude.{ℕ, Bool, true, false, Option, List, String}

pub data TaskStatus : Type 0 where
  queued running completed failed cancelled : TaskStatus

pub record TaskState : Type 0 where
  pub status : TaskStatus
  pub label : String
  pub session_key : Option ℕ
  pub result : Option String
  pub error_msg : Option String
  pub started_at : ℕ
  pub completed_at : Option ℕ
  pub last_heartbeat : ℕ
  pub iteration_count : ℕ
  pub origin_channel : String
  pub origin_chat_id : String
  pub abort_handle : Option ℕ
  pub suppress_report : Bool

pub record PendingTask : Type 0 where
  pub task_id : ℕ
  pub task : String
  pub label : String
  pub origin_channel : String
  pub origin_chat_id : String
  pub agent_name : Option String

-- What a report to the origin of a task says, by its parts.
pub data Notice : Type 0 where
  is_queued : ℕ → ℕ → Notice
  has_completed : ℕ → String → Notice
  has_failed : ℕ → String → Notice
  was_cancelled : ℕ → Notice
  timed_out : ℕ → Notice

pub record Report : Type 0 where
  pub channel : String
  pub chat_id : String
  pub label : String
  pub notice : Notice

pub record SubagentManager : Type 0 where
  pub tasks : List (ℕ × TaskState)
  pub next_id : ℕ  -- u64
  pub max_concurrent : ℕ  -- u32
  pub agents : List String
  pub pending : List PendingTask
  pub outbox : List Report

abbrev pub is_running : TaskStatus → Bool
is_running running = true
is_running _ = false

abbrev pub is_waiting : TaskStatus → Bool
is_waiting queued = true
is_waiting _ = false

abbrev pub is_cancelled : TaskStatus → Bool
is_cancelled cancelled = true
is_cancelled _ = false
