-- ===== src/Breaker/Trip.antt =====
-- When the breaker (src/providers/circuit_breaker.rs) opens, and what it lets through until it cools.
use openpaw.Prelude.{
  replicate, length-append, ◌++◌, ◌∙◌, ℕ, ◌+◌, ◌^◌, ◌≤◌, ◌<◌, ◌≡◌, refl, ◌↔◌, List, [], ◌∷◌, Bool,
  false, some, arith, length, All, dec_lt,
}
use openpaw.Breaker.{
  opened, closed, CircuitBreaker, check_and_attempt, record_failure, record_success, cooled,
}

-- A row of failures, at the given times.
unfoldable pub fail_at : CircuitBreaker → List ℕ → CircuitBreaker
fail_at b [] = b
fail_at b (t ∷ ts) = fail_at (record_failure b t) ts

-- A row of attempts, at the given times, with their answers.
unfoldable pub attempts : CircuitBreaker → List ℕ → CircuitBreaker × List Bool
attempts b [] = (b, [])
attempts b (t ∷ ts) =
    let (b', answer) = check_and_attempt b t in
    let (b'', answers) = attempts b' ts in (b'', answer ∷ answers)

-- An open breaker stays open under failures.
fail_at-opened :
    (ts : List ℕ) (b : CircuitBreaker) → b.state ≡ opened → (fail_at b ts).state ≡ opened
unfolding fail_at record_failure
fail_at-opened [] b h = h
fail_at-opened (t ∷ ts) b h = fail_at-opened ts (record_failure b t) (ground arith)

record_failure-config : (b : CircuitBreaker) (t : ℕ) → (record_failure b t).config ≡ b.config
unfolding record_failure
record_failure-config b t = refl

record_failure-failures :
    (b : CircuitBreaker) (t : ℕ)
    → b.failures + 1 < 2 ^ 32
    → (record_failure b t).failures ≡ b.failures + 1
unfolding record_failure
record_failure-failures b t h = omega arith

record_failure-closed :
    (b : CircuitBreaker) (t : ℕ)
    → b.failures + 1 < 2 ^ 32
    → b.state ≡ closed
    → b.failures + 1 < b.config.failure_threshold
    → (record_failure b t).state ≡ closed
unfolding record_failure
record_failure-closed b t h c lt = ground (arith, record_failure-failures b t h)

record_failure-opened :
    (b : CircuitBreaker) (t : ℕ)
    → b.failures + 1 < 2 ^ 32
    → b.config.failure_threshold ≤ b.failures + 1
    → (record_failure b t).state ≡ opened
unfolding record_failure
record_failure-opened b t h le = ground (arith, record_failure-failures b t h)

trip_from :
    (ts : List ℕ) (b : CircuitBreaker)
    → b.failures + length ts < 2 ^ 32
    → b.state ≡ closed
    → b.failures < b.config.failure_threshold
    → ((fail_at b ts).state ≡ opened) ↔ (b.config.failure_threshold ≤ b.failures + length ts)
unfolding fail_at
trip_from [] b h c lt = ground arith
trip_from (t ∷ ts) b h c lt = elim (dec_lt (b.failures + 1) b.config.failure_threshold) [
  | yes p ↦ ground (
    arith,
    trip_from ts (record_failure b t),
    record_failure-failures b t,
    record_failure-closed b t,
    record_failure-config b t,
  )
  | no p ↦ (
    λ _. omega arith,
    λ _.
        fail_at-opened ts (record_failure b t)
          (record_failure-opened b t (omega arith) (omega arith)),
  )
]

-- After a success, a row of failures with none in between (fewer than 2 ^ 32) opens the breaker
-- exactly when there are at least `failure_threshold` of them; the threshold is positive.
pub trip_iff :
    (b : CircuitBreaker) (ts : List ℕ)
    → 0 < b.config.failure_threshold
    → length ts < 2 ^ 32
    → ((fail_at (record_success b) ts).state ≡ opened) ↔ (b.config.failure_threshold ≤ length ts)
unfolding record_success
trip_iff b ts h len =
    let (up, down) = trip_from ts (record_success b) (omega arith) refl h in
    (λ o. omega (arith, up o), λ le. down (omega arith))

-- An open breaker that has not cooled at any of the given times refuses each attempt, and is
-- unchanged by all of them.
pub attempts-opened :
    (b : CircuitBreaker) (ts : List ℕ)
    → b.state ≡ opened
    → All (λ t. cooled b t ≡ false) ts
    → attempts b ts ≡ (b, replicate (length ts) false)
unfolding attempts check_and_attempt
attempts-opened b [] h c = refl
attempts-opened b (t ∷ ts) h c = ground (arith, attempts-opened b ts h c.1)

fail_at_append :
    (b : CircuitBreaker) (ts : List ℕ) (t : ℕ)
    → (fail_at b (ts ++ t ∷ [])).last_failure_time ≡ some t
unfolding fail_at record_failure
fail_at_append b [] t = refl
fail_at_append b (s ∷ ts) t = fail_at_append (record_failure b s) ts t

fail_at-config : (b : CircuitBreaker) (ts : List ℕ) → (fail_at b ts).config ≡ b.config
unfolding fail_at
fail_at-config b [] = refl
fail_at-config b (t ∷ ts) = fail_at-config (record_failure b t) ts ∙ record_failure-config b t

not_cooled :
    (b : CircuitBreaker) (last : ℕ) (qs : List ℕ)
    → b.last_failure_time ≡ some last
    → All (λ q. q < last + b.config.cooldown_duration) qs
    → 0 < b.config.cooldown_duration
    → All (λ q. cooled b q ≡ false) qs
not_cooled b last [] e h p = tt
not_cooled b last (q ∷ qs) e h p = (ground arith, not_cooled b last qs e h.1 p)

-- Failures up to the threshold, the last one at `last`, shut the provider off: every attempt
-- earlier than `last + cooldown_duration` is refused, however many there are, and none of them
-- changes the breaker.
pub attempts-trip :
    (b : CircuitBreaker) (ts : List ℕ) (last : ℕ) (qs : List ℕ)
    → 0 < b.config.failure_threshold
    → 0 < b.config.cooldown_duration
    → length ts + 1 < 2 ^ 32
    → b.config.failure_threshold ≤ length ts + 1
    → All (λ q. q < last + b.config.cooldown_duration) qs
    → let down = fail_at (record_success b) (ts ++ last ∷ []) in
      attempts down qs ≡ (down, replicate (length qs) false)
unfolding record_success
attempts-trip b ts last qs pos cool len le early =
    let row = ts ++ last ∷ [] in
    let size = length-append ts (last ∷ []) in
    let down = fail_at (record_success b) row in
    let same : down.config ≡ b.config = fail_at-config (record_success b) row in
    attempts-opened down qs ((trip_iff b row pos (omega arith)).1 (omega arith)) (
      not_cooled down last qs (fail_at_append (record_success b) ts last) (rw same early)
        (rw same cool))
