-- ===== src/Breaker.antt =====
-- The circuit breaker in front of a provider (src/providers/circuit_breaker.rs).
-- `Instant` and `Duration` are numbers of one unit; the reading of the clock is the argument `now`,
-- and `elapsed` saturates at 0 as `Instant::elapsed` does. A method that mutates the state behind
-- the mutex returns the new breaker.
pub mod Validity
pub mod Trip
pub mod Probe
mod Tests
use openpaw.Prelude.{
  ℕ, ◌+◌, ◌-◌, ◌*◌, ◌%◌, ◌^◌, Bool, true, false, Option, none, some, leb, if◌then◌else◌,
}

-- `Open` of the source is `opened`.
pub data CircuitState : Type 0 where
  closed opened half_open : CircuitState

pub record CircuitBreakerConfig : Type 0 where
  pub failure_threshold : ℕ  -- u32
  pub cooldown_duration : ℕ

-- The configuration, and the state behind the mutex.
pub record CircuitBreaker : Type 0 where
  pub config : CircuitBreakerConfig
  pub state : CircuitState
  pub failures : ℕ  -- u32
  pub last_failure_time : Option ℕ

unfoldable pub default_config : ℕ → CircuitBreakerConfig
default_config second = record { failure_threshold = 5; cooldown_duration = 30 * second }

unfoldable pub new : CircuitBreakerConfig → CircuitBreaker
new config = record { config = config; state = closed; failures = 0; last_failure_time = none }

-- `last_failure.elapsed() >= cooldown_duration`, false where there was no failure.
abbrev pub cooled : CircuitBreaker → ℕ → Bool
cooled b now = elim b.last_failure_time [
  | none ↦ false
  | some last_failure ↦ leb b.config.cooldown_duration (now - last_failure)
]

-- The `match` of `allow_request`.
allow_in : CircuitState → CircuitBreaker → ℕ → CircuitBreaker × Bool
allow_in closed b now = (b, true)
allow_in opened b now = if cooled b now then (record b { state = half_open }, true) else (b, false)
allow_in half_open b now = (b, false)

unfoldable pub allow_request : CircuitBreaker → ℕ → CircuitBreaker × Bool
unfolding allow_in
allow_request b now = allow_in b.state b now

-- The `match` of `check_and_attempt`; `true` is `Ok(())` and `false` the error
-- "Circuit breaker is OPEN".
attempt_in : CircuitState → CircuitBreaker → ℕ → CircuitBreaker × Bool
attempt_in closed b now = (b, true)
attempt_in opened b now =
    if cooled b now then (record b { state = half_open }, true) else (b, false)
attempt_in half_open b now = (b, true)

unfoldable pub check_and_attempt : CircuitBreaker → ℕ → CircuitBreaker × Bool
unfolding attempt_in
check_and_attempt b now = attempt_in b.state b now

unfoldable pub record_success : CircuitBreaker → CircuitBreaker
record_success b = record b { failures = 0; state = closed }

-- The state after a failure: at the threshold, or in a probe, the breaker opens.
abbrev tripped : CircuitState → Bool → CircuitState
tripped state true = opened
tripped half_open false = opened
tripped closed false = closed
tripped opened false = opened

-- `failures += 1` on a u32 wraps in the release profile.
unfoldable pub record_failure : CircuitBreaker → ℕ → CircuitBreaker
record_failure b now =
    let failures' = (b.failures + 1) % 2 ^ 32 in
    record b {
      failures = failures';
      last_failure_time = some now;
      state = tripped b.state (leb b.config.failure_threshold failures');
    }

-- The calls that callers make on the shared breaker, each with its time.
pub data Call : Type 0 where
  allow attempt : ℕ → Call
  success : Call
  failure : ℕ → Call

unfoldable pub step : CircuitBreaker → Call → CircuitBreaker
unfolding allow_request check_and_attempt record_success record_failure
step b (allow now) = (allow_request b now).0
step b (attempt now) = (check_and_attempt b now).0
step b success = record_success b
step b (failure now) = record_failure b now
