-- ===== src/Limiter/Backoff.antt =====
-- The backoff after a 429 (src/providers/rate_limiter.rs).
use openpaw.Prelude.{
  ap, ◌∙◌, ℕ, ◌+◌, ◌-◌, ◌≤◌, ◌<◌, ◌≡◌, refl, min, String, Option, some, arith, [],
}
use openpaw.Limiter.{
  RateLimiter, ProviderWindow, from_secs, backoff_secs, window_of, check_and_wait, record_429,
  admit, window_429,
}
use openpaw.Limiter.Entries.{window_of-record_429, window_of-check_and_wait, check_and_wait-wait}

admit-backoff :
    (w : ProviderWindow) (now until : ℕ)
    → w.backoff_until ≡ some until
    → now < until
    → (admit w now).1 ≡ min (until - now) (from_secs 10)
unfolding admit
admit-backoff w now until b early = ground arith

-- The end of the backoff that a 429 at `at` starts.
abbrev pub until_of : ℕ → Option ℕ → ℕ
until_of at retry_after = at + from_secs (backoff_secs retry_after)

-- After a 429 the next call of that provider waits for the rest of the backoff, at most 10 seconds,
-- and never not at all, as long as the backoff of at least 5 seconds runs.
pub record_429-wait :
    (r : RateLimiter) (provider : String) (at now : ℕ) (retry_after : Option ℕ)
    → at ≤ now
    → now < until_of at retry_after
    → let wait = (check_and_wait (record_429 r provider at retry_after) provider now).1 in
      (wait ≡ min (until_of at retry_after - now) (from_secs 10))
      × (0 < wait)
      × (at + from_secs 5 ≤ until_of at retry_after)
unfolding window_429
record_429-wait r provider at now retry_after le early =
    let r' = record_429 r provider at retry_after in
    let e : (check_and_wait r' provider now).1
        ≡ min (until_of at retry_after - now) (from_secs 10) =
      check_and_wait-wait r' provider now
      ∙ admit-backoff (window_of r' provider) now (until_of at retry_after)
          (ap (λ w. ProviderWindow.backoff_until w)
            (window_of-record_429 r provider at retry_after))
          early in
    (e, omega arith, ground arith)

admit_dropped :
    (w : ProviderWindow) (now now' until : ℕ)
    → w.backoff_until ≡ some until
    → w.call_timestamps ≡ []
    → 1 < w.max_calls_per_window
    → now < until
    → until ≤ now + from_secs 10
    → now ≤ now'
    → now' < until
    → (admit (admit w now).0 now').1 ≡ 0
unfolding admit
admit_dropped w now now' until b empty limit early near later early' = ground arith

-- The first caller to sleep out the last 10 seconds of a backoff ends it for all others: with a limit
-- above 1, a second caller that comes before the backoff is over does not wait.
pub check_and_wait_dropped :
    (r : RateLimiter) (provider : String) (at now now' : ℕ) (retry_after : Option ℕ)
    → 1 < (window_of r provider).max_calls_per_window
    → now < until_of at retry_after
    → until_of at retry_after ≤ now + from_secs 10
    → now ≤ now'
    → now' < until_of at retry_after
    → let first = (check_and_wait (record_429 r provider at retry_after) provider now).0 in
      (check_and_wait first provider now').1 ≡ 0
unfolding window_429
check_and_wait_dropped r provider at now now' retry_after limit early near later early' =
    let w = window_429 (window_of r provider) at retry_after in
    rw (check_and_wait-wait, window_of-check_and_wait, window_of-record_429)
      (admit_dropped w now now' (until_of at retry_after) refl refl limit early near later early')
