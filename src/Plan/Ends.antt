-- ===== src/Plan/Ends.antt =====
-- A plan comes to an end (src/plan.rs, the loops of `execute_plan` and `run_final_review`).
use openpaw.Prelude.{
  ℕ, ◌+◌, ◌≤◌, ◌≡◌, refl, true, Option, none, some, List, [], ◌∷◌, String, length, arith, count,
  string_keyed, is_some, ◌∙◌,
}
use openpaw.Dict
use openpaw.Plan.{PlanTask}
use openpaw.Plan.Execute.{
  Progress, Pause, is_late, poll, spawn_found, Ended, all_batches, timed_out, unfinished,
  spawn_batch, run_batches, request, PlanExecution,
}
use openpaw.Subagent.{SubagentManager}
use openpaw.Subagent.Launch.{spawn}
use openpaw.Plan.Review.{
  Reviewed, reviewed, still_reviewing, after_review, finalize, run_plan, start_plan, after_batches,
  review_request,
}
use openpaw.Plan.Late.{
  IsSpaced, poll-HasEnded_at, late-le-one, Leaves, note_spawn-started, after_poll-Leaves,
  spaced-late, is_reviewed, after_spawn-ends,
}

count-le-length : (started : ℕ) (zs : List Pause) → count (is_late started) zs ≤ length zs
count-le-length started [] = omega arith
count-le-length started (z ∷ zs) = omega (
  arith,
  count-le-length started zs,
  late-le-one (is_late started z) (count (is_late started) zs),
)

after_review-some :
    (p : Progress) (r : Reviewed) → is_reviewed r ≡ true → is_some (after_review p r) ≡ true
unfolding finalize
after_review-some p (reviewed review s now) e = refl
after_review-some p (still_reviewing s) e = ground (arith, e)

module _ (label_of : PlanTask → String) (origin_channel origin_chat_id : String)
    (task_lookup : List (String × PlanTask)) where
  spawn_found-started :
      (task_id : String) (task : Option PlanTask) (now : ℕ) (b : Progress × List (String × ℕ))
      → (spawn_found label_of origin_channel origin_chat_id task_lookup task_id task now
          b).0.plan.started_at
        ≡ b.0.plan.started_at
  spawn_found-started task_id none now b = refl
  spawn_found-started task_id (some task) now b =
      note_spawn-started task_id
        (spawn b.0.manager (request label_of origin_channel origin_chat_id task_lookup task) now) b

  spawn_batch-started :
      (batch : List String) (now : ℕ) (b : Progress × List (String × ℕ))
      → (spawn_batch label_of origin_channel origin_chat_id task_lookup batch now
          b).0.plan.started_at
        ≡ b.0.plan.started_at
  unfolding spawn_batch
  spawn_batch-started [] now b = refl
  spawn_batch-started (task_id ∷ batch) now b =
      let found =
        spawn_found label_of origin_channel origin_chat_id task_lookup task_id
          (Dict.get task_id task_lookup) now b in
      spawn_batch-started batch now found
      ∙ spawn_found-started task_id (Dict.get task_id task_lookup) now b

  run_batches-Leaves :
      (batches : List (List String)) (m now started : ℕ) (zs : List Pause) (p : Progress)
      → p.plan.started_at ≡ started
      → IsSpaced now zs
      → length batches + m ≤ count (is_late started) zs
      → Leaves started m
          (run_batches label_of origin_channel origin_chat_id task_lookup batches now zs p)
  unfolding run_batches
  run_batches-Leaves [] m now started zs p e s h = (omega (arith, h), s)
  run_batches-Leaves (batch ∷ batches) m now started zs p e s h =
      let (p', spawned) =
        spawn_batch label_of origin_channel origin_chat_id task_lookup batch now (p, []) in
      let same : p'.plan.started_at ≡ started = spawn_batch-started batch now (p, []) ∙ e in
      after_poll-Leaves (run_batches label_of origin_channel origin_chat_id task_lookup batches)
        (length batches) m started zs (poll zs spawned p')
        (poll-HasEnded_at started zs now spawned p' same s) (omega (arith, h))
        (λ now' rest q e' s' k. run_batches-Leaves batches m now' started rest q e' s' k)

  ended-some :
      (prompt_of : SubagentManager → PlanExecution → String) (review_label : String) (started : ℕ)
      (r : Ended)
      → Leaves started 601 r
      → is_some (
          after_batches label_of origin_channel origin_chat_id task_lookup prompt_of review_label r)
        ≡ true
  unfolding finalize
  ended-some prompt_of review_label started (all_batches p now rest) (n, s) =
      after_review-some p _ (
        after_spawn-ends
          (spawn p.manager
            (review_request label_of origin_channel origin_chat_id task_lookup prompt_of
              review_label p)
            now)
          now rest s (omega (arith, n, count-le-length started rest)))
  ended-some prompt_of review_label started (timed_out p now rest) h = refl
  ended-some prompt_of review_label started (unfinished p) h = elim h [ ]

  -- A plan ends, its review included, however its tasks behave: if each sleep lasts three seconds by
  -- the clock, it takes no more than 3001 sleeps and one for each batch.
  pub run_plan-ends :
      (prompt_of : SubagentManager → PlanExecution → String) (review_label : String)
      (batches : List (List String)) (zs : List Pause) (now plan_id : ℕ) (goal : String)
      (s : SubagentManager)
      → IsSpaced now zs
      → length batches + 3001 ≤ length zs
      → is_some (
          run_plan label_of origin_channel origin_chat_id task_lookup prompt_of review_label batches
            zs now
            (start_plan plan_id goal now s))
        ≡ true
  unfolding run_plan start_plan
  run_plan-ends prompt_of review_label batches zs now plan_id goal s spaced n =
      let p = start_plan plan_id goal now s in
      ended-some prompt_of review_label now
        (run_batches label_of origin_channel origin_chat_id task_lookup batches now zs p)
        (run_batches-Leaves batches 601 now now zs p refl spaced
          (omega (arith, n, spaced-late zs 2400 now now (omega arith) spaced)))
