-- ===== src/Cron/Once.antt =====
-- A due job fires once (src/cron.rs, `tick`).
use openpaw.Prelude.{
  ℕ, ◌^◌, ◌<◌, ◌≡◌, ◌⊎◌, inl, inr, refl, Bool, true, false, not, ◌&&◌, ◌||◌, Option, none, some,
  List, [], ◌∷◌, String, string_keyed, Text, codes, arith, Option-cases, ◌==◌, leb, All,
}
use openpaw.Cron.{Run, ok, err, hang, bind}
use openpaw.Scan.{strip_prefix}
use openpaw.Cron.Expression.{
  ParsedCronExpression, Moment, parse_cron_expression, next_run_for_expression, parse_duration,
}
use openpaw.Cron.Data.{CronJob, CronScheduler}
use openpaw.Cron.Jobs.{Visit, is_positive, init_next, fire_due, visit, visit_all, tick, save}
use openpaw.Cron.Next.{next_run-IsFirst}

pub bind-ok {ℓ κ} :
    {A : Type ℓ} {B : Type κ} (r : Run A) (f : A → Run B) (b : B)
    → bind r f ≡ ok b
    → (a : A) × (r ≡ ok a) × (f a ≡ ok b)
bind-ok (ok a) f b h = (a, refl, h)
bind-ok err f b h = absurd (ground arith)
bind-ok hang f b h = absurd (ground arith)

-- A delay that is asked for by `@once:` is a positive i64: the product did not overflow.
abbrev pub Fits : CronJob → Type 0
Fits job =
    (delay : Text) (secs : ℕ)
    → strip_prefix (codes "@once:") job.expression ≡ some delay
    → parse_duration delay ≡ some secs
    → is_positive secs ≡ true

module _ (calendar : Text → ℕ → Moment) (now : ℕ) (epoch : now < 2 ^ 63) where
  cron-later :
      (job : CronJob) (next : ℕ)
      → strip_prefix (codes "@once:") job.expression ≡ none
      → next_run_for_expression calendar job.expression now job.timezone ≡ ok next
      → (r : Run ParsedCronExpression) → parse_cron_expression job.expression ≡ r
      → now < next
  cron-later job next none_once e (ok parsed) p =
      (rw e at (next_run-IsFirst calendar job.expression job.timezone now parsed none_once p)).0
  cron-later job next none_once e err p = absurd (unfold next_run_for_expression in ground (arith))
  cron-later job next none_once e hang p = absurd (unfold next_run_for_expression in ground (arith))

  next_run-later :
      (job : CronJob) (next : ℕ)
      → Fits job
      → next_run_for_expression calendar job.expression now job.timezone ≡ ok next
      → now < next
  unfolding next_run_for_expression
  next_run-later job next h e = elim (Option-cases (strip_prefix (codes "@once:") job.expression)) [
    | inl none_once ↦ cron-later job next none_once e (parse_cron_expression job.expression) refl
    | inr (delay, once) ↦ elim (Option-cases (parse_duration delay)) [
      | inl bad ↦ absurd (ground (arith))
      | inr (secs, good) ↦ ground (arith, h delay secs once good)
    ]
  ]

  -- The job will not fire at this moment.
  Quiet : CronJob → Type 0
  Quiet job =
      ((not job.enabled || job.paused) ≡ true)
      ⊎ (((job.next_run_secs == 0) ≡ false)
          × ((is_positive job.next_run_secs && leb job.next_run_secs now) ≡ false))

  visit-Quiet : (job : CronJob) (v : Visit) → Fits job → visit calendar now job ≡ ok v → Quiet v.job
  unfolding Quiet visit init_next fire_due
  visit-Quiet job v h e = go (next_run_for_expression calendar job.expression now job.timezone) refl
    where
      go :
          (r : Run ℕ)
          → next_run_for_expression calendar job.expression now job.timezone ≡ r
          → Quiet v.job
      go (ok next) n = let after : now < next = next_run-later job next h n in ground arith
      go err n = ground arith
      go hang n = ground arith

  visit_again :
      (job : CronJob)
      → Quiet job
      → visit calendar now job ≡ ok (record { job = job; fires = none; modified = false })
  unfolding Quiet visit init_next fire_due
  visit_again job q = ground arith

  visit_all-Quiet :
      (jobs jobs' : List (String × CronJob)) (fires : List (String × Option CronJob))
      (modified : Bool)
      → All (λ e. Fits e.1) jobs
      → visit_all calendar now jobs ≡ ok (jobs', fires, modified)
      → All (λ e. Quiet e.1) jobs'
  unfolding visit_all
  visit_all-Quiet [] jobs' fires modified h e = ground arith
  visit_all-Quiet ((id, job) ∷ jobs) jobs' fires modified h e =
      let (v, here, later) = bind-ok (visit calendar now job) _ _ e in
      let ((rest, fires', modified'), there, kept) =
        bind-ok (visit_all calendar now jobs) _ _ later in
      ground (
        arith,
        kept,
        visit-Quiet job v h.0 here,
        visit_all-Quiet jobs rest fires' modified' h.1 there,
      )

  visit_all_again :
      (jobs : List (String × CronJob))
      → All (λ e. Quiet e.1) jobs
      → visit_all calendar now jobs ≡ ok (jobs, [], false)
  unfolding visit_all
  visit_all_again [] q = refl
  visit_all_again ((id, job) ∷ jobs) q = rw (visit_again job q.0, visit_all_again jobs q.1) refl

  tick_again :
      (jobs : List (String × CronJob)) (s : CronScheduler)
      → All (λ e. Quiet e.1) jobs
      → tick calendar now (record s { jobs = jobs }) ≡ ok (record s { jobs = jobs }, [])
  unfolding tick
  tick_again jobs s q = rw (visit_all_again jobs q) refl

  -- After a tick, another tick at the same moment fires nothing and changes nothing, where no `@once:`
  -- delay overflows: what fired was removed, was paused or runs next at a later moment.
  pub tick-once :
      (s s' : CronScheduler) (fires : List (String × Option CronJob))
      → All (λ e. Fits e.1) s.jobs
      → tick calendar now s ≡ ok (s', fires)
      → tick calendar now s' ≡ ok (s', [])
  unfolding tick save
  tick-once s s' fires h e =
      let ((jobs, fired, modified), visited, kept) =
        bind-ok (visit_all calendar now s.jobs) _ _ e in
      let same : s'.jobs ≡ jobs = ground (arith, kept) in
      tick_again s'.jobs s' (rw same (visit_all-Quiet s.jobs jobs fired modified h visited))
