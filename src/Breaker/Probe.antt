-- ===== src/Breaker/Probe.antt =====
-- The probe of a breaker that has cooled (src/providers/circuit_breaker.rs).
use openpaw.Prelude.{
  ◌≢◌, ℕ, ◌≤◌, ◌≡◌, refl, List, [], ◌∷◌, Bool, true, some, arith, length, replicate, count,
}
use openpaw.Breaker.{
  cooled, opened, closed, half_open, CircuitBreaker, allow_request, check_and_attempt,
  record_failure, record_success,
}
use openpaw.Breaker.Trip.{attempts}

-- A row of `allow_request` calls with their answers.
unfoldable pub allows : CircuitBreaker → List ℕ → List Bool
allows b [] = []
allows b (t ∷ ts) = let (b', answer) = allow_request b t in answer ∷ allows b' ts

abbrev pub granted : List Bool → ℕ
granted = count (λ answer. answer)

allows-half_open :
    (b : CircuitBreaker) (ts : List ℕ) → b.state ≡ half_open → granted (allows b ts) ≡ 0
unfolding allows allow_request
allows-half_open b [] h = refl
allows-half_open b (t ∷ ts) h = ground (arith, allows-half_open b ts h)

-- `allow_request` lets at most one request through a breaker that is not closed, in any row of
-- calls with no outcome recorded in between.
pub allows-le-one :
    (b : CircuitBreaker) (ts : List ℕ) → b.state ≢ closed → granted (allows b ts) ≤ 1
unfolding allows allow_request
allows-le-one b [] h = omega arith
allows-le-one b (t ∷ ts) h = ground (
  arith,
  allows-le-one b ts h,
  allows-half_open b ts,
  allows-half_open (record b { state = half_open }) ts refl,
)

attempts-half_open :
    (b : CircuitBreaker) (ts : List ℕ)
    → b.state ≡ half_open
    → attempts b ts ≡ (b, replicate (length ts) true)
unfolding attempts check_and_attempt
attempts-half_open b [] h = refl
attempts-half_open b (t ∷ ts) h = ground (arith, attempts-half_open b ts h)

-- `check_and_attempt` lets every request through once an open breaker has cooled: with no outcome
-- recorded in between, all attempts of the row succeed, whatever their number.
pub attempts-cooled :
    (b : CircuitBreaker) (t : ℕ) (ts : List ℕ)
    → b.state ≡ opened
    → cooled b t ≡ true
    → attempts b (t ∷ ts) ≡ (record b { state = half_open }, replicate (length (t ∷ ts)) true)
unfolding attempts check_and_attempt
attempts-cooled b t ts h c =
    ground (arith, attempts-half_open (record b { state = half_open }) ts refl)

-- One outcome settles a probe: a failure opens the breaker again, whatever the count and the
-- threshold, from its own time on, and a success closes it with no failures counted.
pub probe_outcome :
    (b : CircuitBreaker) (now : ℕ)
    → b.state ≡ half_open
    → ((record_failure b now).state ≡ opened)
      × ((record_failure b now).last_failure_time ≡ some now)
      × ((record_success b).state ≡ closed)
      × ((record_success b).failures ≡ 0)
unfolding record_failure record_success
probe_outcome b now h = ground arith
