-- ===== src/Breaker/Tests.antt =====
-- Runs of the circuit breaker (src/providers/circuit_breaker.rs), and its theorems at inputs.
use openpaw.Prelude.{ℕ, ◌≡◌, refl, List, [], ◌∷◌, true, false, some, arith, ◌++◌}
use openpaw.Breaker.{
  opened, half_open, CircuitBreakerConfig, CircuitBreaker, new, allow_request, check_and_attempt,
  record_success, record_failure,
}
use openpaw.Breaker.Validity.{run}
use openpaw.Breaker.Trip.{fail_at, attempts, attempts-trip}

program : Unit {0}
unfolding new allow_request check_and_attempt record_success record_failure fail_at attempts run
program = tt

abbrev config : CircuitBreakerConfig
config = record { failure_threshold = 3; cooldown_duration = 30 }

abbrev down : CircuitBreaker
down = record { config = config; state = opened; failures = 3; last_failure_time = some 12 }

abbrev probing : CircuitBreaker
probing = record down { state = half_open }

abbrev times : List ℕ
times = 10 ∷ 11 ∷ 12 ∷ []

three_failures : fail_at (new config) (10 ∷ 11 ∷ 12 ∷ []) ≡ down
unfolding program
three_failures = refl

probe_after_cooldown : attempts down (41 ∷ 42 ∷ 43 ∷ []) ≡ (probing, false ∷ true ∷ true ∷ [])
unfolding program
probe_after_cooldown = refl

attempts-trip_example :
    let after = fail_at (record_success probing) ((10 ∷ 11 ∷ []) ++ 12 ∷ []) in
    attempts after (13 ∷ 41 ∷ []) ≡ (after, false ∷ false ∷ [])
attempts-trip_example =
    attempts-trip probing (10 ∷ 11 ∷ []) 12 (13 ∷ 41 ∷ []) (omega arith) (omega arith) (omega arith)
      (omega arith) (omega arith)
