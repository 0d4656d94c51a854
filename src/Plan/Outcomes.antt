-- ===== src/Plan/Outcomes.antt =====
-- What the polling of a batch has recorded when nothing failed (src/plan.rs).
use openpaw.Prelude.{
  ℕ, ◌≡◌, refl, Bool, true, false, ◌||◌, Option, none, some, List, [], ◌∷◌, String, any, arith,
  Bool-cases, inl, inr, string_keyed, ◌=?◌,
}
use openpaw.Dict
use openpaw.Plan.Execute.{
  Progress, Pause, Polled, batch_done, batch_late, still_polling, all_done, is_done, is_failure,
  slept, is_late, poll, note_outcome, record_outcomes, or_failed,
}
use openpaw.Subagent.{TaskStatus, queued, running, completed, failed, cancelled}
use openpaw.Subagent.Ops.{get_task_status}

-- The outcome `completed` is recorded for a task.
abbrev pub HasSucceeded : Progress → String → Type 0
HasSucceeded p k = Dict.get k p.plan.task_outcomes ≡ some completed

-- Whether a key stands in the list of spawned tasks.
abbrev pub spawned_key : String → List (String × ℕ) → Bool
spawned_key k batch = any (λ b. b.0 =? k) batch

pub done-completed :
    (status : Option TaskStatus)
    → is_done status ≡ true
    → is_failure (or_failed status) ≡ false
    → or_failed status ≡ completed
done-completed none d f = ground (arith, d)
done-completed (some queued) d f = ground (arith, d)
done-completed (some running) d f = ground (arith, d)
done-completed (some completed) d f = refl
done-completed (some failed) d f = ground (arith, f)
done-completed (some cancelled) d f = ground (arith, f)

pub or-false : (a b : Bool) → (a || b) ≡ false → (a ≡ false) × (b ≡ false)
or-false false false h = (refl, refl)
or-false true b h = ground (arith, h)
or-false false true h = ground (arith, h)

pub insert-succeeded :
    (id k : String) (outcome : TaskStatus) (m : List (String × TaskStatus))
    → outcome ≡ completed
    → Dict.get k m ≡ some completed
    → Dict.get k (Dict.insert id outcome m) ≡ some completed
insert-succeeded id k outcome m e h = ground (arith, Dict.get-insert id k outcome m, e, h)

pub insert-here :
    (id k : String) (outcome : TaskStatus) (m : List (String × TaskStatus))
    → outcome ≡ completed
    → (id =? k) ≡ true
    → Dict.get k (Dict.insert id outcome m) ≡ some completed
insert-here id k outcome m e y = ground (arith, Dict.get-insert id k outcome m, e, y)

pub record_outcomes-Extends :
    (batch : List (String × ℕ)) (p : Progress)
    → all_done p.manager batch ≡ true
    → (record_outcomes batch p).any_failed ≡ false
    → (p.any_failed ≡ false)
      × ((k : String) → HasSucceeded p k → HasSucceeded (record_outcomes batch p) k)
      × ((k : String) → spawned_key k batch ≡ true → HasSucceeded (record_outcomes batch p) k)
unfolding record_outcomes all_done
record_outcomes-Extends [] p d f = (f, (λ k h. h), (λ k h. ground (arith, h)))
record_outcomes-Extends ((id, sub_id) ∷ batch) p d f =
    let status = get_task_status p.manager sub_id in
    let outcome = or_failed status in
    let p' = note_outcome id outcome p in
    let ends : is_done status ≡ true = ground (arith, d) in
    let others : all_done p.manager batch ≡ true = ground (arith, d, ends) in
    let rest = record_outcomes-Extends batch p' others f in
    let quiet = or-false p.any_failed (is_failure outcome) rest.0 in
    let well : outcome ≡ completed = done-completed status ends quiet.1 in
    (
      quiet.0,
      (λ k h. rest.1 k (insert-succeeded id k outcome p.plan.task_outcomes well h)),
      (λ k h. elim (Bool-cases (id =? k)) [
        | inl y ↦ rest.1 k (insert-here id k outcome p.plan.task_outcomes well y)
        | inr n ↦ rest.2 k (ground (arith, h, n))
      ]),
    )

-- If nothing failed in the polling, nothing had failed before, what had succeeded still has, and so
-- have the tasks of the batch.
abbrev pub HasPolled : Progress → List (String × ℕ) → Polled → Type 0
HasPolled p batch (batch_done p' now rest) =
    p'.any_failed ≡ false
    → (p.any_failed ≡ false)
      × ((k : String) → HasSucceeded p k → HasSucceeded p' k)
      × ((k : String) → spawned_key k batch ≡ true → HasSucceeded p' k)
HasPolled p batch (batch_late p' now rest) = Unit
HasPolled p batch (still_polling p') = Unit

pub poll-HasPolled :
    (zs : List Pause) (batch : List (String × ℕ)) (p : Progress)
    → HasPolled p batch (poll zs batch p)
unfolding poll
poll-HasPolled [] batch p = tt
poll-HasPolled (z ∷ zs) batch p = elim (Bool-cases (all_done (slept z p).manager batch)) [
  | inl y ↦ rw y (record_outcomes-Extends batch (slept z p) y)
  | inr n ↦ rw n (elim (Bool-cases (is_late p.plan.started_at z)) [
    | inl l ↦ rw l tt
    | inr e ↦ rw e (rest_of (poll zs batch (slept z p)) (poll-HasPolled zs batch (slept z p)))
  ])
]
  where
    rest_of : (r : Polled) → HasPolled (slept z p) batch r → HasPolled p batch r
    rest_of (batch_done p' now rest) h = h
    rest_of (batch_late p' now rest) h = tt
    rest_of (still_polling p') h = tt
