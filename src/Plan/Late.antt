-- ===== src/Plan/Late.antt =====
-- The polling of a batch and of the review comes to an end (src/plan.rs).
use openpaw.Prelude.{
  ℕ, ◌+◌, ◌-◌, zero, suc, ◌≤◌, ◌<◌, ◌≡◌, refl, Bool, true, false, Option, none, some, List, [], ◌∷◌,
  String, if◌then◌else◌, ltb, length, arith, count, Bool-cases, inl, inr, string_keyed, sym, ◌*◌,
}
use openpaw.Plan.Execute.{
  Progress, Pause, Polled, batch_done, batch_late, still_polling, all_done, slept, is_late, poll,
  note_outcome, note_spawn, record_outcomes, Ended, all_batches, timed_out, unfinished, Review,
  after_poll, or_failed,
}
use openpaw.Subagent.{SubagentManager}
use openpaw.Subagent.Ops.{get_task_status, run}
use openpaw.Plan.Review.{
  Reviewed, reviewed, still_reviewing, after_answer, poll_review, after_spawn,
}

-- The clock goes on by three seconds at least with each sleep.
abbrev pub IsSpaced : ℕ → List Pause → Type 0
IsSpaced now [] = Unit
IsSpaced now (z ∷ zs) = (now + 3 ≤ z.clock) × IsSpaced z.clock zs

-- The polling has ended and has used one late pause at most.
abbrev pub HasEnded : ℕ → List Pause → Polled → Type 0
HasEnded started zs (batch_done p now rest) =
    (count (is_late started) zs ≤ 1 + count (is_late started) rest)
    × (p.plan.started_at ≡ started)
    × IsSpaced now rest
HasEnded started zs (batch_late p now rest) = Unit
HasEnded started zs (still_polling p) = count (is_late started) zs ≡ 0

pub record_outcomes-started :
    (batch : List (String × ℕ)) (p : Progress)
    → (record_outcomes batch p).plan.started_at ≡ p.plan.started_at
unfolding record_outcomes
record_outcomes-started [] p = refl
record_outcomes-started ((task_id, sub_id) ∷ batch) p =
    record_outcomes-started batch
      (note_outcome task_id (or_failed (get_task_status p.manager sub_id)) p)

more_pauses :
    (started : ℕ) (z : Pause) (zs : List Pause) (r : Polled)
    → is_late started z ≡ false
    → HasEnded started zs r
    → HasEnded started (z ∷ zs) r
more_pauses started z zs (batch_done p now rest) e h = (rw e (omega (arith, h.0)), h.1, h.2)
more_pauses started z zs (batch_late p now rest) e h = tt
more_pauses started z zs (still_polling p) e h = rw e (omega (arith, h))

pub late-le-one : (b : Bool) (n : ℕ) → (if b then 1 else 0) + n ≤ 1 + n
late-le-one true n = omega arith
late-le-one false n = omega arith

pub poll-HasEnded :
    (zs : List Pause) (now : ℕ) (batch : List (String × ℕ)) (p : Progress)
    → IsSpaced now zs
    → HasEnded p.plan.started_at zs (poll zs batch p)
unfolding poll
poll-HasEnded [] now batch p s = refl
poll-HasEnded (z ∷ zs) now batch p s = elim (Bool-cases (all_done (slept z p).manager batch)) [
  | inl y ↦ rw y (
    late-le-one (is_late p.plan.started_at z) (count (is_late p.plan.started_at) zs),
    record_outcomes-started batch (slept z p),
    s.1,
  )
  | inr n ↦ rw n (elim (Bool-cases (is_late p.plan.started_at z)) [
    | inl l ↦ rw l tt
    | inr e ↦ rw e (
        more_pauses p.plan.started_at z zs (poll zs batch (slept z p)) e
          (poll-HasEnded zs z.clock batch (slept z p) s.1))
  ])
]

pub poll-HasEnded_at :
    (started : ℕ) (zs : List Pause) (now : ℕ) (batch : List (String × ℕ)) (p : Progress)
    → p.plan.started_at ≡ started
    → IsSpaced now zs
    → HasEnded started zs (poll zs batch p)
poll-HasEnded_at started zs now batch p e s = rw (sym e) (poll-HasEnded zs now batch p s)

-- The loop has ended; where every batch is done, `m` late pauses at least are left.
abbrev pub Leaves : ℕ → ℕ → Ended → Type 0
Leaves started m (all_batches p now rest) = (m ≤ count (is_late started) rest) × IsSpaced now rest
Leaves started m (timed_out p now rest) = Unit
Leaves started m (unfinished p) = ⊥

pub note_spawn-started :
    (task_id : String) (r : SubagentManager × Option ℕ) (b : Progress × List (String × ℕ))
    → (note_spawn task_id r b).0.plan.started_at ≡ b.0.plan.started_at
note_spawn-started task_id (s, some sub_id) (p, batch) = refl
note_spawn-started task_id (s, none) (p, batch) = refl

pub after_poll-Leaves :
    (go : ℕ → List Pause → Progress → Ended) (n m started : ℕ) (zs : List Pause) (r : Polled)
    → HasEnded started zs r
    → suc n + m ≤ count (is_late started) zs
    → ((now : ℕ) (rest : List Pause) (p : Progress)
        → p.plan.started_at ≡ started
        → IsSpaced now rest
        → n + m ≤ count (is_late started) rest
        → Leaves started m (go now rest p))
    → Leaves started m (after_poll go r)
after_poll-Leaves go n m started zs (batch_done p now rest) e h k =
    k now rest p e.1 e.2 (omega (arith, e.0, h))
after_poll-Leaves go n m started zs (batch_late p now rest) e h k = tt
after_poll-Leaves go n m started zs (still_polling p) e h k = omega (arith, e, h)

-- With a row of pauses three seconds apart, all but `k` of them are late, if the time until then is.
pub spaced-late :
    (zs : List Pause) (k started now : ℕ)
    → started + 7200 < now + 3 * suc k
    → IsSpaced now zs
    → length zs ≤ count (is_late started) zs + k
spaced-late [] k started now h s = omega arith
spaced-late (z ∷ zs) zero started now h (gap, s) =
    let rest = spaced-late zs zero started z.clock (omega (arith, h, gap)) s in
    ground (arith, rest, h, gap)
spaced-late (z ∷ zs) (suc k) started now h (gap, s) =
    let rest = spaced-late zs k started z.clock (omega (arith, h, gap)) s in ground (arith, rest)

abbrev pub is_reviewed : Reviewed → Bool
is_reviewed (reviewed review s now) = true
is_reviewed (still_reviewing s) = false

pub after_answer-ends :
    (answer : Option Review) (too_late : Bool) (review_id now : ℕ) (s : SubagentManager)
    (rest : Reviewed)
    → (too_late ≡ false → is_reviewed rest ≡ true)
    → is_reviewed (after_answer answer too_late review_id now s rest) ≡ true
after_answer-ends (some review) too_late review_id now s rest h = refl
after_answer-ends none true review_id now s rest h = refl
after_answer-ends none false review_id now s rest h = h refl

pub poll_review-ends :
    (zs : List Pause) (k review_id started now : ℕ) (s : SubagentManager)
    → started + 1800 < now + 3 * suc k
    → IsSpaced now zs
    → suc k ≤ length zs
    → is_reviewed (poll_review zs review_id started s) ≡ true
unfolding poll_review
poll_review-ends [] k review_id started now s h t n = ground (arith, n)
poll_review-ends (z ∷ zs) zero review_id started now s h (gap, t) n =
    after_answer-ends _ (ltb 1800 (z.clock - started)) review_id z.clock (run s z.events) _
      (λ e. ground (arith, e, h, gap))
poll_review-ends (z ∷ zs) (suc k) review_id started now s h (gap, t) n =
    after_answer-ends _ (ltb 1800 (z.clock - started)) review_id z.clock (run s z.events) _ (λ e.
      poll_review-ends zs k review_id started z.clock (run s z.events) (omega (arith, h, gap)) t
        (omega (arith, n)))

pub after_spawn-ends :
    (r : SubagentManager × Option ℕ) (now : ℕ) (zs : List Pause)
    → IsSpaced now zs
    → 601 ≤ length zs
    → is_reviewed (after_spawn r now zs) ≡ true
after_spawn-ends (s, none) now zs t n = refl
after_spawn-ends (s, some review_id) now zs t n =
    poll_review-ends zs 600 review_id now now s (omega arith) t n
