-- ===== src/Provider/Reliable.antt =====
-- A provider with retries behind its circuit breaker (src/providers/reliable.rs).
-- The breaker stands in the world, where `circuit_breaker` reads and writes it; the clock and the
-- sleep of a thread belong to the world as well.
use openpaw.Prelude.{ℕ, ◌+◌, ◌-◌, ◌*◌, zero, suc, min, Bool, not, ◌||◌, Text, codes, if◌then◌else◌}
use openpaw.Breaker.{
  CircuitBreaker, new as new_breaker, default_config, check_and_attempt, record_success,
  record_failure,
}
use openpaw.Provider.{
  Provider, Reply, ok, err, hung, SharedRetryState, can_retry, increment_attempts, new_state,
  is_retryable,
}
use openpaw.Provider.Classify.{Outside, classify, extract_status_from_message}

-- `Instant::now` in milliseconds, and `thread::sleep`.
pub record Clock {ℓ} (W : Type ℓ) : Type ℓ where
  pub now : W → ℕ
  pub sleep : ℕ → W → W

-- The place of a mutable object.
pub record Place {ℓ} (W : Type ℓ) (A : Type 0) : Type ℓ where
  pub read : W → A
  pub write : A → W → W

pub record ReliableProvider {ℓ κ} (W : Type ℓ) (R : Type κ) : Type (ℓ ⊔ κ) where
  pub inner : Provider W R
  pub max_retries : ℕ  -- u32
  pub initial_backoff_ms : ℕ
  pub max_backoff_ms : ℕ
  pub circuit_breaker : Place W CircuitBreaker

-- The breaker that a new provider starts with; the cooldown is in milliseconds.
abbrev pub fresh_breaker : CircuitBreaker
fresh_breaker = new_breaker (default_config 1000)

-- The message of the error of `check_and_attempt`.
abbrev pub open_message : Text
open_message = codes "Circuit breaker is OPEN"

-- The test after a failure: the error is returned.
abbrev pub gives_up : Outside → Text → SharedRetryState → Bool
gives_up o msg shared =
    not (is_retryable (classify o (extract_status_from_message msg) msg)) || not (can_retry shared)

abbrev pub next_backoff : ℕ → ℕ → ℕ
next_backoff max_backoff_ms backoff_ms = min (backoff_ms * 2) max_backoff_ms

module _ {ℓ κ} {W : Type ℓ} {R : Type κ} where
  -- Without the shared count.
  abbrev pub unshared : Reply R × SharedRetryState × W → Reply R × W
  unshared (reply, shared, w) = (reply, w)

  unfoldable pub new : Provider W R → Place W CircuitBreaker → ReliableProvider W R
  new inner place = record {
    inner = inner;
    max_retries = 3;
    initial_backoff_ms = 1000;
    max_backoff_ms = 30_000;
    circuit_breaker = place;
  }

  unfoldable pub with_retries : ReliableProvider W R → ℕ → ReliableProvider W R
  with_retries p max_retries = record p { max_retries = max_retries }

  module _ (o : Outside) (clock : Clock W) (p : ReliableProvider W R) where
    -- `check_and_attempt` on the breaker in the world.
    abbrev pub enter : W → W × Bool
    enter w =
        let (b, allowed) = check_and_attempt (p.circuit_breaker.read w) (clock.now w) in
        (p.circuit_breaker.write b w, allowed)

    abbrev pub succeeded : W → W
    succeeded w = p.circuit_breaker.write (record_success (p.circuit_breaker.read w)) w

    abbrev pub failed : W → W
    failed w = p.circuit_breaker.write (record_failure (p.circuit_breaker.read w) (clock.now w)) w

    -- What follows the call of the inner provider; `again` is the rest of the loop.
    abbrev pub react :
        (SharedRetryState → W → Reply R × SharedRetryState × W)
        → ℕ
        → Reply R × SharedRetryState × W
        → Reply R × SharedRetryState × W
    react again backoff_ms (ok resp, shared, w) = (ok resp, shared, succeeded w)
    react again backoff_ms (err msg, shared, w) =
        if gives_up o msg shared
        then (err msg, shared, failed w)
        else again (increment_attempts shared) (clock.sleep backoff_ms (failed w))
    react again backoff_ms (hung, shared, w) = (hung, shared, w)

    -- The loop of `chat_with_retry`.
    unfoldable pub attempt_loop : ℕ → ℕ → SharedRetryState → W → Reply R × SharedRetryState × W
    attempt_loop zero backoff_ms shared w = (hung, shared, w)
    attempt_loop (suc fuel) backoff_ms shared w =
        let again = attempt_loop fuel (next_backoff p.max_backoff_ms backoff_ms) in
        let (w', allowed) = enter w in
        if allowed
        then react again backoff_ms (p.inner.chat_with_retry shared w')
        else (err open_message, shared, w')

    -- Each turn but the last counts an attempt: so many turns are enough.
    unfoldable pub chat_with_retry : SharedRetryState → W → Reply R × SharedRetryState × W
    unfolding attempt_loop
    chat_with_retry shared w =
        attempt_loop (shared.max_total - shared.total_attempts + 1) p.initial_backoff_ms shared w

    unfoldable pub chat : W → Reply R × W
    unfolding chat_with_retry new_state
    chat w = unshared (chat_with_retry (new_state p.max_retries) w)

    abbrev settle_stream : Reply R × W → Reply R × W
    settle_stream (ok resp, w) = (ok resp, succeeded w)
    settle_stream (err msg, w) = (err msg, failed w)
    settle_stream (hung, w) = (hung, w)

    unfoldable pub chat_stream : W → Reply R × W
    chat_stream w =
        let (w', allowed) = enter w in
        if allowed then settle_stream (p.inner.chat_stream w') else (err open_message, w')

    -- The provider itself, as the callers see it.
    abbrev pub provider : Provider W R
    provider = record {
      chat_with_retry = chat_with_retry;
      chat_stream = chat_stream;
      supports_native_tools = p.inner.supports_native_tools;
      get_name = p.inner.get_name;
    }
