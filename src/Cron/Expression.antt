-- ===== src/Cron/Expression.antt =====
-- Cron expressions and the search for the next run (src/cron.rs, from `normalize_expression` to
-- `parse_duration`).
use openpaw.Prelude.{
  ℕ, zero, suc, ◌+◌, ◌-◌, ◌*◌, ◌%◌, ◌^◌, Bool, true, false, not, ◌&&◌, ◌||◌, Option, none, some,
  List, [], ◌∷◌, Text, codes, text_keyed, ◌==◌, leb, ltb, if◌then◌else◌, length,
}
use openpaw.Cron.{Run, ok, err, bind, need}
use openpaw.Scan.{trim, split_whitespace, strip_prefix, parse_i64}
use openpaw.Cron.Field.{at, parse_cron_field}

pub record CronNormalized : Type 0 where
  pub expression : Text
  pub needs_second_prefix : Bool

abbrev by_fields : Text → ℕ → Option CronNormalized
by_fields trimmed n =
    if n == 5
    then some (record { expression = trimmed; needs_second_prefix = true })
    else if n == 6 || n == 7
    then some (record { expression = trimmed; needs_second_prefix = false })
    else none

unfoldable pub normalize_expression : Text → Option CronNormalized
normalize_expression expression =
    let trimmed = trim expression in by_fields trimmed (length (split_whitespace trimmed))

pub record ParsedCronExpression : Type 0 where
  pub minutes : List Bool
  pub hours : List Bool
  pub day_of_month : List Bool
  pub months : List Bool
  pub day_of_week : List Bool
  pub day_of_month_any : Bool
  pub day_of_week_any : Bool

-- `fields[i]`, of an index in range.
abbrev nth : ℕ → List Text → Text
nth i [] = []
nth zero (f ∷ fs) = f
nth (suc i) (f ∷ fs) = nth i fs

-- The five fields, which start at `first`.
unfoldable pub parse_fields : ℕ → List Text → Run ParsedCronExpression
parse_fields first fields = bind (parse_cron_field (nth first fields) 0 59 false 60) (λ minutes.
    bind (parse_cron_field (nth (first + 1) fields) 0 23 false 24) (λ hours.
      bind (parse_cron_field (nth (first + 2) fields) 1 31 false 32) (λ day_of_month.
        bind (parse_cron_field (nth (first + 3) fields) 1 12 false 13) (λ months.
          bind (parse_cron_field (nth (first + 4) fields) 0 6 true 7) (λ day_of_week. ok (record {
            minutes = minutes.1;
            hours = hours.1;
            day_of_month = day_of_month.1;
            months = months.1;
            day_of_week = day_of_week.1;
            day_of_month_any = day_of_month.0;
            day_of_week_any = day_of_week.0;
          }))))))

unfoldable pub parse_cron_expression : Text → Run ParsedCronExpression
unfolding normalize_expression parse_fields
parse_cron_expression expression = bind (need (normalize_expression expression)) (λ n.
    parse_fields (if CronNormalized.needs_second_prefix n then 0 else 1)
      (split_whitespace (CronNormalized.expression n)))

-- What chrono says of a moment in a time zone.
pub record Moment : Type 0 where
  pub minute : ℕ
  pub hour : ℕ
  pub day : ℕ
  pub month : ℕ
  pub weekday : ℕ  -- days from Sunday

-- The test of the two fields for the day.
abbrev pub day_matches : ParsedCronExpression → Moment → Bool
day_matches parsed dt =
    let dom_match = leb dt.day 31 && at dt.day parsed.day_of_month in
    let dow_match = ltb dt.weekday 7 && at dt.weekday parsed.day_of_week in
    if parsed.day_of_month_any && parsed.day_of_week_any
    then true
    else if parsed.day_of_month_any
    then dow_match
    else if parsed.day_of_week_any
    then dom_match
    else dom_match || dow_match

unfoldable pub cron_matches : ParsedCronExpression → Moment → Bool
cron_matches parsed dt =
    if leb 60 dt.minute || not (at dt.minute parsed.minutes)
    then false
    else if leb 24 dt.hour || not (at dt.hour parsed.hours)
    then false
    else if ltb 12 dt.month || not (at dt.month parsed.months)
    then false
    else day_matches parsed dt

abbrev multiplier : ℕ → Option ℕ
multiplier c =
    if c == b's'
    then some 1
    else if c == b'm'
    then some 60
    else if c == b'h'
    then some 3600
    else if c == b'd'
    then some 86400
    else if c == b'w'
    then some 604800
    else none

abbrev is_ascii_alphabetic : ℕ → Bool
is_ascii_alphabetic c = (leb b'a' c && leb c b'z') || (leb b'A' c && leb c b'Z')

-- The last character, and what stands before it.
abbrev unsnoc : Text → Option (Text × ℕ)
unsnoc [] = none
unsnoc (c ∷ s) = elim (unsnoc s) [ none ↦ some ([], c) | some (t, d) ↦ some (c ∷ t, d) ]

-- `n <= 0` is an error; the product wraps around.
abbrev scaled : ℕ → Option (Bool × ℕ) → Option ℕ
scaled mult none = none
scaled mult (some (negative, n)) = if negative || n == 0 then none else some (n * mult % 2 ^ 64)

abbrev with_unit : Text → Option ℕ → Option ℕ
with_unit s none = none
with_unit s (some mult) = scaled mult (parse_i64 (trim s))

abbrev by_unit : Text → Option (Text × ℕ) → Option ℕ
by_unit trimmed none = none
by_unit trimmed (some (num_part, last_char)) =
    if is_ascii_alphabetic last_char
    then with_unit num_part (multiplier last_char)
    else with_unit trimmed (some 60)

-- In seconds.
unfoldable pub parse_duration : Text → Option ℕ
parse_duration input = let trimmed = trim input in by_unit trimmed (unsnoc trimmed)

-- The loop over the candidates, a minute apart.
unfoldable pub look_ahead : ℕ → (ℕ → Bool) → ℕ → Run ℕ
look_ahead zero matches candidate = err
look_ahead (suc n) matches candidate = elim (matches candidate) [
  | true ↦ ok candidate
  | false ↦ look_ahead n matches (candidate + 60)
]

abbrev pub first_candidate : ℕ → ℕ
first_candidate from_secs = from_secs - from_secs % 60 + 60

-- What chrono makes of a moment and the name of a time zone is an argument.
module _ (calendar : Text → ℕ → Moment) where
  unfoldable pub next_match : ℕ → ParsedCronExpression → ℕ → Text → Run ℕ
  unfolding look_ahead
  next_match minutes parsed from_secs timezone =
      look_ahead minutes (λ ts. cron_matches parsed (calendar timezone ts))
        (first_candidate from_secs)

  abbrev delayed : ℕ → Option ℕ → Run ℕ
  delayed from_secs none = err
  delayed from_secs (some delay_secs) = ok ((from_secs + delay_secs) % 2 ^ 64)

  abbrev once_or_cron : Text → ℕ → Text → Option Text → Run ℕ
  once_or_cron expression from_secs timezone (some delay) = delayed from_secs (parse_duration delay)
  once_or_cron expression from_secs timezone none =
      bind (parse_cron_expression expression)
        (λ parsed. next_match (366 * 24 * 60) parsed from_secs timezone)

  unfoldable pub next_run_for_expression : Text → ℕ → Text → Run ℕ
  unfolding parse_cron_expression next_match parse_duration
  next_run_for_expression expression from_secs timezone =
      once_or_cron expression from_secs timezone (strip_prefix (codes "@once:") expression)
