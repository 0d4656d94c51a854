-- ===== src/Plan/Success.antt =====
-- What a plan that is reported as completed has done (src/plan.rs, the end of `execute_plan`).
use openpaw.Prelude.{
  ℕ, ◌≡◌, refl, Bool, true, false, Option, none, some, List, [], ◌∷◌, String, any, arith,
  Bool-cases, inl, inr, string_keyed, All,
}
use openpaw.Dict
use openpaw.Plan.{PlanTask, contains}
use openpaw.Plan.Execute.{
  plan_completed, Progress, Pause, Polled, batch_done, batch_late, still_polling, poll, Ended,
  all_batches, timed_out, unfinished, spawn_batch, run_batches, PlanExecution, after_poll,
}
use openpaw.Plan.Review.{
  finalize, status_of, Reviewed, reviewed, still_reviewing, after_review, after_batches, run_plan,
  run_final_review,
}
use openpaw.Subagent.{completed, SubagentManager}
use mathlib.Core.Path.{subst}
use openpaw.Plan.Outcomes.{HasSucceeded, spawned_key, HasPolled, poll-HasPolled}
use openpaw.Plan.Spawned.{HasSpawned, Knows, spawn_batch-HasSpawned, spawn_batch-key}

-- If nothing failed in the loop, nothing had failed before, what had succeeded still has, and so have
-- the tasks of the batches.
abbrev HasRun : Progress → List (List String) → Ended → Type 0
HasRun p batches (all_batches p' now rest) =
    p'.any_failed ≡ false
    → (p.any_failed ≡ false)
      × ((k : String) → HasSucceeded p k → HasSucceeded p' k)
      × ((k : String) → any (contains k) batches ≡ true → HasSucceeded p' k)
HasRun p batches (timed_out p' now rest) = Unit
HasRun p batches (unfinished p') = Unit

first_batch :
    (p q : Progress) (batch : List String) (batches : List (List String)) (r : Ended)
    → (q.any_failed ≡ false
        → (p.any_failed ≡ false)
          × ((k : String) → HasSucceeded p k → HasSucceeded q k)
          × ((k : String) → contains k batch ≡ true → HasSucceeded q k))
    → HasRun q batches r
    → HasRun p (batch ∷ batches) r
first_batch p q batch batches (all_batches p' now rest) h run = λ f.
    let later = run f in
    let first = h later.0 in
    (
      first.0,
      (λ k s. later.1 k (first.1 k s)),
      (λ k s. elim (Bool-cases (contains k batch)) [
        | inl y ↦ later.1 k (first.2 k y)
        | inr n ↦ later.2 k (ground (arith, s, n))
      ]),
    )
first_batch p q batch batches (timed_out p' now rest) h run = tt
first_batch p q batch batches (unfinished p') h run = tt

after_poll-HasRun :
    (go : ℕ → List Pause → Progress → Ended) (p p' : Progress) (batch : List String)
    (spawned : List (String × ℕ)) (batches : List (List String)) (r : Polled)
    → HasSpawned (p, []) (p', spawned)
    → (p'.any_failed ≡ false
        → (k : String) → contains k batch ≡ true
        → spawned_key k spawned ≡ true)
    → HasPolled p' spawned r
    → ((now : ℕ) (rest : List Pause) (q : Progress) → HasRun q batches (go now rest q))
    → HasRun p (batch ∷ batches) (after_poll go r)
after_poll-HasRun go p p' batch spawned batches (batch_done q now rest) s keys polled later =
    first_batch p q batch batches (go now rest q)
      (λ f.
        let done = polled f in
        let start = s done.0 in
        (start.0, (λ k h. done.1 k (start.1 k h)), (λ k h. done.2 k (keys done.0 k h))))
      (later now rest q)
after_poll-HasRun go p p' batch spawned batches (batch_late q now rest) s keys polled later = tt
after_poll-HasRun go p p' batch spawned batches (still_polling q) s keys polled later = tt

-- A plan that has ended as completed has a completed task for each of its batches' ids.
abbrev Succeeds : List (List String) → Option (PlanExecution × SubagentManager) → Type 0
Succeeds batches none = Unit
Succeeds batches (some (plan, s)) =
    plan.status ≡ plan_completed
    → (k : String) → any (contains k) batches ≡ true
    → Dict.get k plan.task_outcomes ≡ some completed

status-quiet : (b : Bool) → status_of false b ≡ plan_completed → b ≡ false
status-quiet true h = ground (arith, h)
status-quiet false h = refl

status-late : (b : Bool) → ¬ (status_of true b ≡ plan_completed)
status-late b h = ground (arith, h)

after_review-Succeeds :
    (batches : List (List String)) (p q : Progress) (now : ℕ) (rest : List Pause) (r : Reviewed)
    → HasRun p batches (all_batches q now rest)
    → Succeeds batches (after_review q r)
unfolding finalize
after_review-Succeeds batches p q now rest (reviewed review s now') run =
    λ e k h. (run (status-quiet q.any_failed e)).2 k h
after_review-Succeeds batches p q now rest (still_reviewing s) run = tt

succeeded_at :
    (batches : List (List String)) (k : String) (plan : PlanExecution) (s : SubagentManager)
    (r : Option (PlanExecution × SubagentManager))
    → r ≡ some (plan, s)
    → Succeeds batches r
    → plan.status ≡ plan_completed
    → any (contains k) batches ≡ true
    → Dict.get k plan.task_outcomes ≡ some completed
succeeded_at batches k plan s r e h = λ c m. subst (Succeeds batches) e h c k m

module _ (label_of : PlanTask → String) (origin_channel origin_chat_id : String)
    (task_lookup : List (String × PlanTask)) where
  run_batches-HasRun :
      (batches : List (List String)) (now : ℕ) (zs : List Pause) (p : Progress)
      → All (Knows task_lookup) batches
      → HasRun p batches
          (run_batches label_of origin_channel origin_chat_id task_lookup batches now zs p)
  unfolding run_batches
  run_batches-HasRun [] now zs p known = λ f. (f, (λ k h. h), (λ k h. ground (arith, h)))
  run_batches-HasRun (batch ∷ batches) now zs p known =
      let (p', spawned) =
        spawn_batch label_of origin_channel origin_chat_id task_lookup batch now (p, []) in
      after_poll-HasRun (run_batches label_of origin_channel origin_chat_id task_lookup batches) p
        p' batch spawned batches (poll zs spawned p')
        (spawn_batch-HasSpawned label_of origin_channel origin_chat_id task_lookup batch now
          (p, []))
        (λ f k h.
          spawn_batch-key label_of origin_channel origin_chat_id task_lookup batch now (p, []) k
            known.0 f h)
        (poll-HasPolled zs spawned p')
        (λ now' rest q. run_batches-HasRun batches now' rest q known.1)

  ended-Succeeds :
      (prompt_of : SubagentManager → PlanExecution → String) (review_label : String) (p : Progress)
      (batches : List (List String)) (r : Ended)
      → HasRun p batches r
      → Succeeds batches (
          after_batches label_of origin_channel origin_chat_id task_lookup prompt_of review_label r)
  unfolding finalize
  ended-Succeeds prompt_of review_label p batches (all_batches q now rest) run =
      after_review-Succeeds batches p q now rest
        (run_final_review label_of origin_channel origin_chat_id task_lookup prompt_of review_label
          q now rest)
        run
  ended-Succeeds prompt_of review_label p batches (timed_out q now rest) run =
      λ e. elim (status-late q.any_failed e) [ ]
  ended-Succeeds prompt_of review_label p batches (unfinished q) run = tt

  run_plan-Succeeds :
      (prompt_of : SubagentManager → PlanExecution → String) (review_label : String)
      (batches : List (List String)) (zs : List Pause) (now : ℕ) (p : Progress)
      → All (Knows task_lookup) batches
      → Succeeds batches (
          run_plan label_of origin_channel origin_chat_id task_lookup prompt_of review_label batches
            zs now p)
  unfolding run_plan
  run_plan-Succeeds prompt_of review_label batches zs now p known =
      ended-Succeeds prompt_of review_label p batches
        (run_batches label_of origin_channel origin_chat_id task_lookup batches now zs p)
        (run_batches-HasRun batches now zs p known)

  -- A plan that has ended with the status Completed has the outcome Completed for every task of every
  -- batch, if the tasks of the batches stand in the plan's table: none failed, none was cancelled, and
  -- none was left out.
  pub run_plan-succeeds :
      (prompt_of : SubagentManager → PlanExecution → String) (review_label : String)
      (batches : List (List String)) (zs : List Pause) (now : ℕ) (p : Progress)
      (plan : PlanExecution) (s : SubagentManager) (k : String)
      → All (Knows task_lookup) batches
      → run_plan label_of origin_channel origin_chat_id task_lookup prompt_of review_label batches
          zs now p
        ≡ some (plan, s)
      → plan.status ≡ plan_completed
      → any (contains k) batches ≡ true
      → Dict.get k plan.task_outcomes ≡ some completed
  run_plan-succeeds prompt_of review_label batches zs now p plan s k known e =
      succeeded_at batches k plan s _ e
        (run_plan-Succeeds prompt_of review_label batches zs now p known)
