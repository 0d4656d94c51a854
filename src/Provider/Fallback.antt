-- ===== src/Provider/Fallback.antt =====
-- A row of providers, each tried when those before it failed (src/providers/fallback.rs).
use openpaw.Prelude.{
  ℕ, ◌*◌, suc, Bool, true, false, not, ◌&&◌, ◌||◌, Option, none, some, List, [], ◌∷◌, ◌++◌, Text,
  codes, text_eq, any, if◌then◌else◌, ltb,
}
use openpaw.Provider.{
  Provider, Reply, ok, err, hung, SharedRetryState, can_retry, new_state, ApiErrorKind, rate_limit,
  quota, auth, model_down, network, context_overflow, credit_exhausted, unknown, is_retryable,
  needs_fallback,
}
use openpaw.Provider.Classify.{Outside, classify_full, extract_status_from_message}
use openpaw.Provider.Reliable.{Clock, unshared}

-- What `chat_with_retry` does with an error: it goes on to the next provider, whether the one that
-- failed is marked as exhausted and after a wait in seconds, or it returns the error.
pub data Verdict : Type 0 where
  move_on : (exhausted : Bool) → (wait_secs : Option ℕ) → Verdict
  stop : Verdict

-- The row of tests on the kind of an error.
unfoldable pub verdict : ApiErrorKind → Verdict
unfolding is_retryable
verdict credit_exhausted = move_on true none
verdict quota = move_on false none
verdict (rate_limit retry_after_secs) = move_on false retry_after_secs
verdict model_down = move_on false none
verdict network = if is_retryable network then move_on false none else stop
verdict (context_overflow limit output) =
    if is_retryable (context_overflow limit output) then move_on false none else stop
verdict auth = if is_retryable auth then move_on false none else stop
verdict unknown = if is_retryable unknown then move_on false none else stop

-- The kind that the error's own text gives.
abbrev pub kind_of : Outside → Text → ApiErrorKind
kind_of o msg = (classify_full o (extract_status_from_message msg) msg).kind

abbrev pub waited {ℓ} : {W : Type ℓ} → Clock W → Option ℕ → W → W
waited clock none w = w
waited clock (some secs) w = clock.sleep (1000 * secs) w

abbrev pub mark : Bool → Text → List Text → List Text
mark true name exhausted = exhausted ++ name ∷ []
mark false name exhausted = exhausted

module _ {ℓ κ} {W : Type ℓ} {R : Type κ} where
  module _ (o : Outside) (clock : Clock W) where
    -- The end of a turn that the provider `name` answered; `go` is the rest of the row, from the
    -- exhausted providers and the last error on.
    abbrev pub judge :
        (List Text → Text → SharedRetryState → W → Reply R × SharedRetryState × W)
        → Text
        → List Text
        → Text
        → SharedRetryState
        → W
        → Verdict
        → Reply R × SharedRetryState × W
    judge go name exhausted msg shared w (move_on is_exhausted wait) =
        go (mark is_exhausted name exhausted) msg shared (waited clock wait w)
    judge go name exhausted msg shared w stop = (err msg, shared, w)

    abbrev pub answer :
        (List Text → Text → SharedRetryState → W → Reply R × SharedRetryState × W)
        → Text
        → List Text
        → Reply R × SharedRetryState × W
        → Reply R × SharedRetryState × W
    answer go name exhausted (ok resp, shared, w) = (ok resp, shared, w)
    answer go name exhausted (err msg, shared, w) =
        judge go name exhausted msg shared w (verdict (kind_of o msg))
    answer go name exhausted (hung, shared, w) = (hung, shared, w)

    -- The loop over the providers; `i` is the place of the first of those that are left.
    unfoldable pub rotate :
        ℕ
        → List (Provider W R)
        → List Text
        → Text
        → SharedRetryState
        → W
        → Reply R × SharedRetryState × W
    unfolding can_retry
    rotate i [] exhausted last_err shared w = (err last_err, shared, w)
    rotate i (p ∷ ps) exhausted last_err shared w =
        let go = rotate (suc i) ps in
        if any (text_eq p.get_name) exhausted
        then go exhausted last_err shared w
        else if not (can_retry shared) && ltb 0 i
        then (err last_err, shared, w)
        else answer go p.get_name exhausted (p.chat_with_retry shared w)

    module _ (providers : List (Provider W R)) where
      unfoldable pub chat_with_retry : SharedRetryState → W → Reply R × SharedRetryState × W
      unfolding rotate
      chat_with_retry shared w =
          rotate 0 providers [] (codes "No providers configured for fallback") shared w

      unfoldable pub chat : W → Reply R × W
      unfolding chat_with_retry new_state
      chat w = unshared (chat_with_retry (new_state 3) w)

      abbrev pub after_stream : Reply R × W → Reply R × W
      after_stream (ok resp, w) = (ok resp, w)
      after_stream (err msg, w) =
          if is_retryable (kind_of o msg) || needs_fallback (kind_of o msg)
          then unshared (chat_with_retry (new_state 3) w)
          else (err msg, w)
      after_stream (hung, w) = (hung, w)

      unfoldable pub chat_stream : W → Reply R × W
      chat_stream w = elim providers [
        | [] ↦ (err (codes "All providers failed in fallback"), w)
        | p ∷ ps ↦ after_stream (p.chat_stream w)
      ]

      unfoldable pub supports_native_tools : Bool
      supports_native_tools = elim providers [ [] ↦ false | p ∷ ps ↦ p.supports_native_tools ]
