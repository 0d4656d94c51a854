-- ===== src/Cron/Tests.antt =====
-- Expressions and jobs (src/cron.rs), and the theorems at them.
use openpaw.Prelude.{
  ℕ, ◌+◌, ◌-◌, ◌*◌, ◌/◌, ◌%◌, ◌<◌, ◌≡◌, ◌≢◌, refl, Bool, true, false, none, some, List, [], ◌∷◌,
  string_keyed, Text, codes, text_keyed, arith, any, min,
}
use openpaw.Cron.{ok, hang}
use openpaw.Scan.{
  is_whitespace, trim_start, trim_end, split, split_once, split_space, split_whitespace,
  strip_prefix, digits, unsigned, parse_u8, parse_i64,
}
use openpaw.Cron.Field.{Range, Seen, at, parse_part, mark, mark_parts, parse_cron_field}
use openpaw.Cron.Marks.{hits}
use openpaw.Cron.Table.{ranges_of, parse_cron_field-ranges, parse_cron_field-hang}
use openpaw.Cron.Expression.{
  Moment, ParsedCronExpression, normalize_expression, parse_fields, parse_cron_expression,
  cron_matches, parse_duration, look_ahead, next_match, next_run_for_expression, first_candidate,
}
use openpaw.Cron.Next.{IsFirst, next_run-IsFirst}
use openpaw.Cron.Data.{CronJob, CronScheduler, JobType, SessionTarget, DeliveryMode}
use openpaw.Cron.Jobs.{
  started, init_next, fire_due, visit, visit_all, save, tick, run_begin, run_end, deliver_result,
  add_job, remove_job,
}
use openpaw.Cron.Once.{Fits, tick-once}
use openpaw.Cron.Log.{run_ids, upto, End, end_all, end_all-log}
use openpaw.Cron.Overlap.{begins, ticks, apply, apply_all, no_overlap}

program : Unit {0}
unfolding is_whitespace trim_start trim_end split split_once split_space split_whitespace
    strip_prefix digits unsigned parse_u8 parse_i64 parse_part mark mark_parts parse_cron_field
    normalize_expression parse_fields parse_cron_expression cron_matches parse_duration look_ahead
    next_match next_run_for_expression init_next fire_due visit visit_all save tick run_begin
    run_end deliver_result add_job remove_job end_all apply apply_all
program = tt

abbrev weekend : List Range
weekend = record { start = 6; end = 7; step = 1 } ∷ []

weekend_ranges : ranges_of 0 6 true (split b',' (codes "6-7")) ≡ some weekend
unfolding program
weekend_ranges = refl

weekend_field :
    parse_cron_field (codes "6-7") 0 6 true 7
    ≡ ok (false, true ∷ false ∷ false ∷ false ∷ false ∷ false ∷ true ∷ [])
unfolding program
weekend_field = refl

quarters : parse_part 0 59 false (codes "*/15") ≡ some (record { start = 0; end = 59; step = 15 })
unfolding program
quarters = refl

parse_cron_field-ranges_example :
    (out : List Bool) × (parse_cron_field (codes "6-7") 0 6 true 7 ≡ ok (false, out))
    × ((i : ℕ) → i < 7 → at i out ≡ any (hits true i) weekend)
parse_cron_field-ranges_example =
    parse_cron_field-ranges (codes "6-7") 0 6 true 7 weekend (refl, refl, refl) refl weekend_ranges
      refl

parse_cron_field-hang_example :
    (parse_cron_field (codes "*/0") 0 59 false 60 ≡ hang)
    × ((fuel : ℕ) (s : Seen) → mark fuel false 0 0 59 0 s ≡ hang)
parse_cron_field-hang_example =
    parse_cron_field-hang (codes "*/0") (codes "*/0") [] 0 59 false 60
      (record { start = 0; end = 59; step = 0 }) (omega arith, omega arith, omega arith) refl
      (unfold program in refl) (unfold program in refl) refl

two_hours : parse_duration (codes " 2h ") ≡ some 7200
unfolding program
two_hours = refl

-- A product that overflows is wrapped around.
overflow : parse_duration (codes "30500000000000w") ≡ some 18446400000000000000
unfolding program
overflow = refl

-- Minutes and hours of UTC, always the first of January, a Sunday.
abbrev clock : Text → ℕ → Moment
clock timezone ts = record {
  minute = ts / 60 % 60;
  hour = ts / 3600 % 24;
  day = 1;
  month = 1;
  weekday = 0;
}

abbrev ParseOk : Text → Type 0
ParseOk s = (parsed : ParsedCronExpression) × (parse_cron_expression s ≡ ok parsed)

half_past : ParseOk (codes "30 * * * *")
unfolding program
half_past = (_, refl)

next_half_past : next_run_for_expression clock (codes "30 * * * *") 65 (codes "UTC") ≡ ok 1800
unfolding program
next_half_past = refl

next_run-IsFirst_example :
    IsFirst
      (λ ts. cron_matches half_past.0 (clock (codes "UTC") ts))
      66
      (first_candidate 65 + 60 * (366 * 24 * 60))
      (next_run_for_expression clock (codes "30 * * * *") 65 (codes "UTC"))
next_run-IsFirst_example =
    next_run-IsFirst clock (codes "30 * * * *") (codes "UTC") 65 half_past.0
      (unfold program in refl) half_past.1

abbrev job : CronJob
job = record {
  id = "tea";
  expression = codes "30 * * * *";
  command = "kettle";
  next_run_secs = 1800;
  last_run_secs = none;
  last_status = none;
  paused = false;
  one_shot = false;
  job_type = JobType.shell;
  session_target = SessionTarget.isolated;
  prompt = none;
  name = none;
  model = none;
  enabled = true;
  delete_after_run = false;
  created_at_s = 0;
  last_output = none;
  delivery = record {
    mode = DeliveryMode.always;
    channel = some "cli";
    account_id = none;
    to = none;
    best_effort = true;
  };
  history = [];
  timezone = codes "UTC";
}

abbrev idle : CronScheduler
idle = record {
  jobs = ("tea", job) ∷ ("egg", record job { id = "egg"; one_shot = true }) ∷ [];
  runs = [];
  outbox = [];
  next_run_id = 1;
  running_jobs = [];
  saved = [];
}

job-Fits : Fits job
job-Fits delay secs once good = absurd (unfold program in ground arith)

abbrev ticked_idle : CronScheduler
ticked_idle = record idle {
  jobs =
      (
        "tea",
        record job {
          next_run_secs = 5400;
          last_run_secs = some 1860;
          last_status = some "running";
        },
      )
      ∷ [];
  saved =
      (
        "tea",
        record job {
          next_run_secs = 5400;
          last_run_secs = some 1860;
          last_status = some "running";
        },
      )
      ∷ [];
}

first_tick :
    tick clock 1860 idle
    ≡ ok (
      ticked_idle,
      ("tea", none) ∷ ("egg", some (record job { id = "egg"; one_shot = true })) ∷ [],
    )
unfolding program
first_tick = refl

tick-once_example : tick clock 1860 ticked_idle ≡ ok (ticked_idle, [])
tick-once_example =
    tick-once clock 1860 (omega arith) idle ticked_idle
      (("tea", none) ∷ ("egg", some (record job { id = "egg"; one_shot = true })) ∷ [])
      (job-Fits, (job-Fits, tt)) first_tick

abbrev tea_end : End
tea_end = record {
  id = "tea";
  job = job;
  success = true;
  output = "hot";
  started_at = 1860;
  finished_at = 1870;
}

end_all-log_example :
    run_ids (end_all (tea_end ∷ tea_end ∷ []) idle).runs
    ≡ upto (1 + 2 - min (0 + 2) 1000) (min (0 + 2) 1000)
end_all-log_example =
    end_all-log (tea_end ∷ tea_end ∷ []) 0 idle (omega arith) (omega arith) (omega arith) refl

abbrev brewing : CronScheduler
brewing = record idle { running_jobs = "tea" ∷ [] }

tea_starts : run_begin "tea" none idle ≡ started job brewing
unfolding program
tea_starts = refl

no_overlap_example :
    run_begin "tea" none (apply_all clock brewing (begins "egg" none ∷ ticks 1860 ∷ []))
    ≢ started job brewing
no_overlap_example =
    no_overlap clock "tea" none none idle brewing job (begins "egg" none ∷ ticks 1860 ∷ []) job
      brewing tea_starts refl
