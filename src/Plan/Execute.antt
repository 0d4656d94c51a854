-- ===== src/Plan/Execute.antt =====
-- The execution of a sorted plan on the background tasks (src/plan.rs, the task that `execute_plan`
-- starts). What happens to the tasks while the loop sleeps, and the clock after each sleep, come from a
-- row of pauses; the spawns of a batch come together. A plan is in the table until the program ends, so
-- the entry stands for the table. What goes to the bus is text; so are a label and the prompt of the
-- review, which are arguments.
use openpaw.Prelude.{
  ℕ, ◌-◌, Bool, true, false, ◌||◌, Option, none, some, List, [], ◌∷◌, ◌++◌, String, string_keyed,
  if◌then◌else◌, ltb,
}
use openpaw.Dict
use openpaw.Plan.{PlanTask}
use openpaw.Subagent.{TaskStatus, queued, running, completed, failed, cancelled, SubagentManager}
use openpaw.Subagent.Launch.{Request, spawn}
use openpaw.Subagent.Ops.{Event, run, cancel_task, get_task_status}

pub data PlanStatus : Type 0 where
  plan_running plan_completed partial_failure plan_failed : PlanStatus

-- What `run_final_review` returns: the text of the review, or why there is none.
pub data Review : Type 0 where
  text_of : String → Review
  not_started no_output not_successful disappeared late not_run : Review

pub record PlanExecution : Type 0 where
  pub plan_id : ℕ
  pub goal : String
  pub status : PlanStatus
  pub started_at : ℕ
  pub completed_at : Option ℕ
  pub task_map : List (String × ℕ)
  pub task_outcomes : List (String × TaskStatus)
  pub final_review : Option Review

-- The variables of the loop over the batches, and what it shares with others.
pub record Progress : Type 0 where
  pub manager : SubagentManager
  pub plan : PlanExecution
  pub spawned_task_ids : List ℕ
  pub any_failed : Bool

-- A sleep of three seconds: what happens to the tasks, and the clock after it.
pub record Pause : Type 0 where
  pub events : List Event
  pub clock : ℕ

-- The end of the polling of a batch. `still_polling` is the end of the row of pauses.
pub data Polled : Type 0 where
  batch_done batch_late : Progress → ℕ → List Pause → Polled
  still_polling : Progress → Polled

abbrev pub is_done : Option TaskStatus → Bool
is_done (some completed) = true
is_done (some failed) = true
is_done (some cancelled) = true
is_done status = false

abbrev pub is_open : Option TaskStatus → Bool
is_open (some queued) = true
is_open (some running) = true
is_open status = false

abbrev pub is_failure : TaskStatus → Bool
is_failure failed = true
is_failure cancelled = true
is_failure status = false

abbrev pub or_failed : Option TaskStatus → TaskStatus
or_failed none = failed
or_failed (some status) = status

unfoldable pub all_done : SubagentManager → List (String × ℕ) → Bool
all_done s [] = true
all_done s ((task_id, sub_id) ∷ batch) =
    let rest = all_done s batch in if is_done (get_task_status s sub_id) then rest else false

-- The outcome of a task of the batch.
abbrev pub note_outcome : String → TaskStatus → Progress → Progress
note_outcome task_id outcome p = record p {
  any_failed = p.any_failed || is_failure outcome;
  plan = record p.plan { task_outcomes = Dict.insert task_id outcome p.plan.task_outcomes };
}

unfoldable pub record_outcomes : List (String × ℕ) → Progress → Progress
record_outcomes [] p = p
record_outcomes ((task_id, sub_id) ∷ batch) p =
    record_outcomes batch (note_outcome task_id (or_failed (get_task_status p.manager sub_id)) p)

-- The tasks of the plan that wait or run are cancelled.
unfoldable pub cancel_open : List ℕ → ℕ → SubagentManager → SubagentManager
cancel_open [] now s = s
cancel_open (sub_id ∷ sub_ids) now s =
    cancel_open sub_ids now
      (if is_open (get_task_status s sub_id) then (cancel_task s sub_id now).0 else s)

abbrev pub give_up : ℕ → Progress → Progress
give_up now p = record p {
  any_failed = true;
  manager = cancel_open p.spawned_task_ids now p.manager;
}

abbrev pub slept : Pause → Progress → Progress
slept z p = record p { manager = run p.manager z.events }

abbrev pub is_late : ℕ → Pause → Bool
is_late started z = ltb 7200 (z.clock - started)

unfoldable pub poll : List Pause → List (String × ℕ) → Progress → Polled
poll [] batch p = still_polling p
poll (z ∷ zs) batch p =
    let rest = poll zs batch (slept z p) in
    if all_done (slept z p).manager batch
    then batch_done (record_outcomes batch (slept z p)) z.clock zs
    else if is_late p.plan.started_at z
    then batch_late (give_up z.clock (slept z p)) z.clock zs
    else rest

-- How the loop over the batches ends.
pub data Ended : Type 0 where
  all_batches : Progress → ℕ → List Pause → Ended
  timed_out : Progress → ℕ → List Pause → Ended
  unfinished : Progress → Ended

abbrev pub note_spawn :
    String
    → SubagentManager × Option ℕ
    → Progress × List (String × ℕ)
    → Progress × List (String × ℕ)
note_spawn task_id (s, some sub_id) (p, batch) = (
  record p {
    manager = s;
    spawned_task_ids = p.spawned_task_ids ++ sub_id ∷ [];
    plan = record p.plan { task_map = Dict.insert task_id sub_id p.plan.task_map };
  },
  batch ++ (task_id, sub_id) ∷ [],
)
note_spawn task_id (s, none) (p, batch) = (record p { manager = s; any_failed = true }, batch)

abbrev pub after_poll : (ℕ → List Pause → Progress → Ended) → Polled → Ended
after_poll go (batch_done p now zs) = go now zs p
after_poll go (batch_late p now zs) = timed_out p now zs
after_poll go (still_polling p) = unfinished p

module _ (label_of : PlanTask → String) (origin_channel origin_chat_id : String)
    (task_lookup : List (String × PlanTask)) where
  abbrev pub request : PlanTask → Request
  request task = record {
    task = task.description;
    label = label_of task;
    origin_channel = origin_channel;
    origin_chat_id = origin_chat_id;
    agent_name = task.agent_id;
    suppress_report = false;
  }

  abbrev pub spawn_found :
      String → Option PlanTask → ℕ → Progress × List (String × ℕ) → Progress × List (String × ℕ)
  spawn_found task_id none now b = b
  spawn_found task_id (some task) now b =
      note_spawn task_id (spawn b.0.manager (request task) now) b

  unfoldable pub spawn_batch :
      List String → ℕ → Progress × List (String × ℕ) → Progress × List (String × ℕ)
  spawn_batch [] now b = b
  spawn_batch (task_id ∷ batch) now b =
      spawn_batch batch now (spawn_found task_id (Dict.get task_id task_lookup) now b)

  unfoldable pub run_batches : List (List String) → ℕ → List Pause → Progress → Ended
  unfolding spawn_batch
  run_batches [] now zs p = all_batches p now zs
  run_batches (batch ∷ batches) now zs p =
      let (p', spawned) = spawn_batch batch now (p, []) in
      after_poll (run_batches batches) (poll zs spawned p')
