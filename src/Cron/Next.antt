-- ===== src/Cron/Next.antt =====
-- The next run is the first minute that matches (src/cron.rs, `next_run_for_expression`).
use openpaw.Prelude.{
  ℕ, zero, suc, ◌+◌, ◌*◌, ◌%◌, ◌≤◌, ◌<◌, ◌≡◌, refl, sym, Bool, true, false, none, Text, codes,
  arith, dec_le,
}
use openpaw.Cron.{Run, ok, err, hang}
use openpaw.Scan.{strip_prefix}
use openpaw.Cron.Expression.{
  ParsedCronExpression, Moment, cron_matches, parse_cron_expression, look_ahead, first_candidate,
  next_match, next_run_for_expression,
}

-- The first whole minute from `first` on, and below `bound`, at which `matches` holds; an error if
-- there is none.
abbrev pub IsFirst : (ℕ → Bool) → ℕ → ℕ → Run ℕ → Type 0
IsFirst matches first bound (ok t) =
    (first ≤ t)
    × (t < bound)
    × (t % 60 ≡ 0)
    × (matches t ≡ true)
    × ((u : ℕ) → first ≤ u → u < t → u % 60 ≡ 0 → matches u ≡ false)
IsFirst matches first bound err = (u : ℕ) → first ≤ u → u < bound → u % 60 ≡ 0 → matches u ≡ false
IsFirst matches first bound hang = ⊥

module _ (matches : ℕ → Bool) where
  -- Between two candidates there is no whole minute.
  after :
      (first u : ℕ)
      → first % 60 ≡ 0
      → matches first ≡ false
      → first ≤ u
      → u % 60 ≡ 0
      → (first + 60 ≤ u → matches u ≡ false)
      → matches u ≡ false
  after first u h i a c f = elim (dec_le (first + 60) u) [
    | yes k ↦ f k
    | no k ↦ rw (same first u h a c (omega arith)) i
  ]
    where
      same : (n m : ℕ) → n % 60 ≡ 0 → n ≤ m → m % 60 ≡ 0 → m < n + 60 → m ≡ n
      same n m p q r l = omega arith

  later :
      (first bound : ℕ) (r : Run ℕ)
      → IsFirst matches first bound r
      → (first' : ℕ) → first' ≤ first
      → ((u : ℕ) → first' ≤ u → u % 60 ≡ 0 → first ≤ u)
      → IsFirst matches first' bound r
  later first bound (ok t) (low, high, whole, yes_t, before) first' le up =
      (omega arith, high, whole, yes_t, λ u a b c. before u (up u a c) b c)
  later first bound err f first' le up = λ u a b c. f u (up u a c) b c
  later first bound hang f first' le up = elim f [ ]

  earlier :
      (first bound : ℕ) (r : Run ℕ)
      → first % 60 ≡ 0
      → matches first ≡ false
      → IsFirst matches (first + 60) bound r
      → IsFirst matches first bound r
  earlier first bound (ok t) h i (low, high, whole, yes_t, before) =
      (omega arith, high, whole, yes_t, λ u a b c. after first u h i a c (λ k. before u k b c))
  earlier first bound err h i f = λ u a b c. after first u h i a c (λ k. f u k b c)
  earlier first bound hang h i f = elim f [ ]

  look_ahead-IsFirst :
      (n first : ℕ)
      → first % 60 ≡ 0
      → IsFirst matches first (first + 60 * n) (look_ahead n matches first)
  unfolding look_ahead
  look_ahead-IsFirst zero first h = λ u i j k. absurd (omega arith)
  look_ahead-IsFirst (suc n) first h =
      go (matches first) refl (look_ahead-IsFirst n (first + 60) (omega arith))
    where
      go :
          (b : Bool)
          → matches first ≡ b
          → IsFirst matches (first + 60) (first + 60 + 60 * n) (look_ahead n matches (first + 60))
          → IsFirst matches first
              (first + 60 * suc n)
              (elim b [ true ↦ ok first | false ↦ look_ahead n matches (first + 60) ])
      go true e rest = (omega arith, omega arith, h, e, λ u i j k. absurd (omega arith))
      go false e rest =
          let bound : first + 60 + 60 * n ≡ first + 60 * suc n = omega arith in
          earlier first (first + 60 * suc n) _ h e (rw (sym bound) rest)

module _ (calendar : Text → ℕ → Moment) where
  -- The next run of a cron expression is the first whole minute after the moment given at which the
  -- expression matches, within 366 days; it is an error exactly when there is no such minute.
  pub next_run-IsFirst :
      (expression timezone : Text) (from_secs : ℕ) (parsed : ParsedCronExpression)
      → strip_prefix (codes "@once:") expression ≡ none
      → parse_cron_expression expression ≡ ok parsed
      → IsFirst
          (λ ts. cron_matches parsed (calendar timezone ts))
          (suc from_secs)
          (first_candidate from_secs + 60 * (366 * 24 * 60))
          (next_run_for_expression calendar expression from_secs timezone)
  unfolding next_run_for_expression
  next_run-IsFirst expression timezone from_secs parsed h i =
      rw (h, i)
        (later (λ ts. cron_matches parsed (calendar timezone ts)) (first_candidate from_secs) _ _
          (unfold next_match in
            look_ahead-IsFirst (λ ts. cron_matches parsed (calendar timezone ts)) (366 * 24 * 60)
              (first_candidate from_secs) (omega arith))
          (suc from_secs) (omega arith) (λ u a b. omega arith))
