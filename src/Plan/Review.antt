-- ===== src/Plan/Review.antt =====
-- The final review of a plan and its end (src/plan.rs, `run_final_review` and what follows it).
use openpaw.Prelude.{ℕ, ◌-◌, Bool, true, false, Option, none, some, List, [], ◌∷◌, String, ltb}
use openpaw.Plan.{PlanTask}
use openpaw.Plan.Execute.{
  PlanStatus, plan_running, plan_completed, partial_failure, plan_failed, Review, text_of,
  not_started, no_output, not_successful, disappeared, late, not_run, PlanExecution, Progress,
  Pause, Ended, all_batches, timed_out, unfinished, run_batches,
}
use openpaw.Subagent.{TaskStatus, queued, running, completed, failed, cancelled, SubagentManager}
use openpaw.Subagent.Launch.{Request, spawn}
use openpaw.Subagent.Ops.{run, cancel_task, get_task_status, get_task_result}

-- The end of the polling of the review, with the clock.
pub data Reviewed : Type 0 where
  reviewed : Review → SubagentManager → ℕ → Reviewed
  still_reviewing : SubagentManager → Reviewed

abbrev pub or_no_output : Option String → Review
or_no_output none = no_output
or_no_output (some text) = text_of text

-- The match on the status; a task that waits or runs is not answered yet.
abbrev pub answer_of : Option TaskStatus → Option String → Option Review
answer_of (some completed) result = some (or_no_output result)
answer_of (some failed) result = some not_successful
answer_of (some cancelled) result = some not_successful
answer_of (some queued) result = none
answer_of (some running) result = none
answer_of none result = some disappeared

abbrev pub after_answer : Option Review → Bool → ℕ → ℕ → SubagentManager → Reviewed → Reviewed
after_answer (some review) too_late review_id now s rest = reviewed review s now
after_answer none true review_id now s rest = reviewed late (cancel_task s review_id now).0 now
after_answer none false review_id now s rest = rest

unfoldable pub poll_review : List Pause → ℕ → ℕ → SubagentManager → Reviewed
poll_review [] review_id started s = still_reviewing s
poll_review (z ∷ zs) review_id started s =
    let s' = run s z.events in
    let rest = poll_review zs review_id started s' in
    after_answer (answer_of (get_task_status s' review_id) (get_task_result s' review_id))
      (ltb 1800 (z.clock - started)) review_id z.clock s' rest

-- The review is spawned silently; an error of the spawn is its text.
abbrev pub after_spawn : SubagentManager × Option ℕ → ℕ → List Pause → Reviewed
after_spawn (s, none) now zs = reviewed not_started s now
after_spawn (s, some review_id) now zs = poll_review zs review_id now s

abbrev pub status_of : Bool → Bool → PlanStatus
status_of true any_failed = plan_failed
status_of false true = partial_failure
status_of false false = plan_completed

-- The entry of a plan that has ended.
unfoldable pub finalize : Bool → Review → ℕ → Progress → PlanExecution
finalize too_late review now p = record p.plan {
  status = status_of too_late p.any_failed;
  completed_at = some now;
  final_review = some review;
}

abbrev pub after_review : Progress → Reviewed → Option (PlanExecution × SubagentManager)
after_review p (reviewed review s now) = some (finalize false review now p, s)
after_review p (still_reviewing s) = none

unfoldable pub start_plan : ℕ → String → ℕ → SubagentManager → Progress
start_plan plan_id goal now s = record {
  manager = s;
  plan = record {
    plan_id = plan_id;
    goal = goal;
    status = plan_running;
    started_at = now;
    completed_at = none;
    task_map = [];
    task_outcomes = [];
    final_review = none;
  };
  spawned_task_ids = [];
  any_failed = false;
}

module _ (label_of : PlanTask → String) (origin_channel origin_chat_id : String)
    (task_lookup : List (String × PlanTask)) (prompt_of : SubagentManager → PlanExecution → String)
    (review_label : String) where
  abbrev pub review_request : Progress → Request
  review_request p = record {
    task = prompt_of p.manager p.plan;
    label = review_label;
    origin_channel = origin_channel;
    origin_chat_id = origin_chat_id;
    agent_name = none;
    suppress_report = true;
  }

  abbrev pub run_final_review : Progress → ℕ → List Pause → Reviewed
  run_final_review p now zs = after_spawn (spawn p.manager (review_request p) now) now zs

  abbrev pub after_batches : Ended → Option (PlanExecution × SubagentManager)
  after_batches (all_batches p now zs) = after_review p (run_final_review p now zs)
  after_batches (timed_out p now zs) = some (finalize true not_run now p, p.manager)
  after_batches (unfinished p) = none

  -- A whole plan: its entry and the tasks when it has ended, `none` while it has not.
  unfoldable pub run_plan :
      List (List String) → List Pause → ℕ → Progress → Option (PlanExecution × SubagentManager)
  unfolding run_batches finalize
  run_plan batches zs now p =
      after_batches
        (run_batches label_of origin_channel origin_chat_id task_lookup batches now zs p)
