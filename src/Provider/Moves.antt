-- ===== src/Provider/Moves.antt =====
-- Which providers of a row (src/providers/fallback.rs) cost nothing: those whose breaker is open
-- (src/providers/reliable.rs).
use openpaw.Prelude.{
  ℕ, ◌+◌, ◌<◌, ◌-◌, ◌≡◌, refl, zero, suc, false, not, ◌&&◌, List, ◌∷◌, Text, text_eq, arith, any,
  ltb, none,
}
use openpaw.Scan.{split_whitespace, parse_u16}
use openpaw.Breaker.{opened, cooled, CircuitBreaker, check_and_attempt}
use openpaw.Provider.{Provider, err, SharedRetryState, can_retry}
use openpaw.Provider.Classify.{Outside, classify_full, extract_status_from_message, status_kind}
use openpaw.Provider.Reliable.{
  Clock, ReliableProvider, attempt_loop, open_message, chat_with_retry, provider,
}
use openpaw.Provider.Fallback.{rotate, kind_of, verdict, move_on}

-- The message of an open breaker is no status and no body: it counts as a failure of the network.
verdict-open_message : (o : Outside) → verdict (kind_of o open_message) ≡ move_on false none
unfolding verdict classify_full extract_status_from_message status_kind split_whitespace parse_u16
verdict-open_message o = refl

check_and_attempt-opened :
    (b : CircuitBreaker) (now : ℕ)
    → b.state ≡ opened
    → cooled b now ≡ false
    → check_and_attempt b now ≡ (b, false)
unfolding check_and_attempt
check_and_attempt-opened b now s c = ground arith

module _ {ℓ κ} {W : Type ℓ} {R : Type κ} (o : Outside) (clock : Clock W) (p : ReliableProvider W R)
    (w : W) (s : (p.circuit_breaker.read w).state ≡ opened)
    (c : cooled (p.circuit_breaker.read w) (clock.now w) ≡ false)
    (same : p.circuit_breaker.write (p.circuit_breaker.read w) w ≡ w) where
  attempt_loop-opened :
      (fuel backoff_ms : ℕ) (shared : SharedRetryState)
      → 0 < fuel
      → attempt_loop o clock p fuel backoff_ms shared w ≡ (err open_message, shared, w)
  unfolding attempt_loop
  attempt_loop-opened zero backoff_ms shared h = absurd (omega arith)
  attempt_loop-opened (suc fuel) backoff_ms shared h =
      rw (check_and_attempt-opened (p.circuit_breaker.read w) (clock.now w) s c, same) refl

  -- A provider whose breaker is open and has not cooled costs a row nothing: it is passed over with
  -- no call, no retry and no wait, and leaves the message of the breaker as the last error. (It must
  -- be tried at all: there are retries left, or it is the first, and its name is not marked; writing
  -- the breaker as it was changes nothing.)
  pub rotate-opened :
      (i : ℕ) (ps : List (Provider W R)) (exhausted : List Text) (last_err : Text)
      (shared : SharedRetryState)
      → any (text_eq p.inner.get_name) exhausted ≡ false
      → (not (can_retry shared) && ltb 0 i) ≡ false
      → rotate o clock i (provider o clock p ∷ ps) exhausted last_err shared w
        ≡ rotate o clock (suc i) ps exhausted open_message shared w
  unfolding rotate chat_with_retry
  rotate-opened i ps exhausted last_err shared fresh may =
      rw
        (
          fresh,
          may,
          attempt_loop-opened (shared.max_total - shared.total_attempts + 1) p.initial_backoff_ms
              shared (omega arith),
          verdict-open_message o,
        )
        refl
