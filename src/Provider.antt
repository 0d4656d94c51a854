-- ===== src/Provider.antt =====
-- Calls of language models with retries and fallback (src/providers/mod.rs, error_classify.rs,
-- reliable.rs, fallback.rs): the kinds of errors, the shared count of retries, and what a provider
-- offers. The clients of the services are providers that are not modelled.
pub mod Classify
pub mod Reliable
pub mod Fallback
pub mod Kinds
pub mod Moves
pub mod Exhausted
mod Tests
pub mod Spent
pub mod Budget
pub mod Rotation
use openpaw.Prelude.{ℕ, ◌+◌, ◌%◌, ◌^◌, Bool, true, false, ◌||◌, Option, Text, ltb}

pub data ApiErrorKind : Type 0 where
  rate_limit : (retry_after_secs : Option ℕ) → ApiErrorKind
  quota auth model_down network : ApiErrorKind
  context_overflow : (limit available_output : Option ℕ) → ApiErrorKind
  credit_exhausted unknown : ApiErrorKind

-- `matches!` in `ApiErrorKind::is_retryable` and `needs_fallback`.
unfoldable pub is_retryable : ApiErrorKind → Bool
is_retryable (rate_limit _) = true
is_retryable network = true
is_retryable (context_overflow _ _) = true
is_retryable quota = false
is_retryable auth = false
is_retryable model_down = false
is_retryable credit_exhausted = false
is_retryable unknown = false

unfoldable pub needs_fallback : ApiErrorKind → Bool
needs_fallback quota = true
needs_fallback credit_exhausted = true
needs_fallback model_down = true
needs_fallback auth = true
needs_fallback (rate_limit _) = false
needs_fallback network = false
needs_fallback (context_overflow _ _) = false
needs_fallback unknown = false

pub record ErrorInfo : Type 0 where
  pub kind : ApiErrorKind
  pub retry_after_secs : Option ℕ  -- u64, as the next two
  pub context_limit : Option ℕ
  pub available_output_tokens : Option ℕ

-- Both numbers are u32; the first is an atomic that wraps.
pub record SharedRetryState : Type 0 where
  pub total_attempts : ℕ
  pub max_total : ℕ

unfoldable pub new_state : ℕ → SharedRetryState
new_state max_total = record { total_attempts = 0; max_total = max_total }

unfoldable pub can_retry : SharedRetryState → Bool
can_retry shared = ltb shared.total_attempts shared.max_total

unfoldable pub increment_attempts : SharedRetryState → SharedRetryState
increment_attempts shared = record shared { total_attempts = (shared.total_attempts + 1) % 2 ^ 32 }

-- The result of a call: a response, or an error as `to_string` shows it. A loop that goes on for
-- ever is `hung`.
pub data Reply {ℓ} (R : Type ℓ) : Type ℓ where
  ok : R → Reply R
  err : Text → Reply R
  hung : Reply R

-- The trait `Provider` for one request: a call reads and changes the shared count and the world `W`,
-- which holds all other state (services, clock, breakers).
pub record Provider {ℓ κ} (W : Type ℓ) (R : Type κ) : Type (ℓ ⊔ κ) where
  pub chat_with_retry : SharedRetryState → W → Reply R × SharedRetryState × W
  pub chat_stream : W → Reply R × W
  pub supports_native_tools : Bool
  pub get_name : Text
