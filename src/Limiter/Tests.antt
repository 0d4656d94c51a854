-- ===== src/Limiter/Tests.antt =====
-- Runs of the rate limiter (src/providers/rate_limiter.rs), and its theorems at inputs.
use openpaw.Prelude.{ℕ}
use openpaw.Prelude.{◌≤◌, ◌≡◌, refl, string_keyed, none, arith, List, [], ◌∷◌}
use openpaw.Limiter.{
  RateLimiter, from_secs, new, window_of, check_and_wait, record_429, current_window_count,
}
use openpaw.Limiter.Rate.{serve, recent, serve-recent}
use openpaw.Limiter.Crowd.{burst}

program : Unit {0}
unfolding new window_of check_and_wait record_429 current_window_count serve burst
program = tt

abbrev seconds : ℕ → ℕ
seconds s = from_secs s

-- Two calls in 10 seconds: the third one at 3 s waits 8 s.
abbrev times : List ℕ
times = seconds 1 ∷ seconds 2 ∷ seconds 3 ∷ []

served :
    (serve (new 2 10) "openai" 0 [] times) ≡ (seconds 11, seconds 11 ∷ seconds 2 ∷ seconds 1 ∷ [])
unfolding program
served = refl

serve-recent_example :
    let (last, calls) = serve (new 2 10) "openai" 0 [] times in recent (seconds 10) last calls ≤ 2
unfolding program
serve-recent_example =
    serve-recent 2 10 "openai" times (omega arith) (omega arith) (omega arith) (omega arith)

abbrev full : RateLimiter
full = record (new 2 10) {
  windows =
      (
        "openai",
        record {
          call_timestamps = seconds 1 ∷ seconds 2 ∷ [];
          backoff_until = none;
          max_calls_per_window = 2;
          window_duration = seconds 10;
        },
      )
      ∷ [];
}
