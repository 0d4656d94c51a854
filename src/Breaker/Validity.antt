-- ===== src/Breaker/Validity.antt =====
-- What holds of a breaker (src/providers/circuit_breaker.rs) between two calls, in any order of calls.
use openpaw.Prelude.{◌<◌, ◌≡◌, ◌≢◌, List, [], ◌∷◌, true, arith, is_some}
use openpaw.Breaker.{closed, CircuitBreakerConfig, CircuitBreaker, Call, new, step}

pub record IsValid (b : CircuitBreaker) : Type 0 where
  pub below : b.state ≡ closed → b.failures < b.config.failure_threshold
  pub dated : b.state ≢ closed → is_some b.last_failure_time ≡ true

unfoldable pub run : CircuitBreaker → List Call → CircuitBreaker
run b [] = b
run b (c ∷ cs) = run (step b c) cs

step-config : (b : CircuitBreaker) (c : Call) → (step b c).config ≡ b.config
unfolding step
step-config b c = ground arith

step-IsValid :
    (b : CircuitBreaker) (c : Call)
    → 0 < b.config.failure_threshold
    → IsValid b
    → IsValid (step b c)
unfolding step
step-IsValid b c h v = ground arith

run-IsValid_from :
    (cs : List Call) (b : CircuitBreaker)
    → 0 < b.config.failure_threshold
    → IsValid b
    → IsValid (run b cs)
unfolding run
run-IsValid_from [] b h v = v
run-IsValid_from (c ∷ cs) b h v =
    run-IsValid_from cs (step b c) (ground (arith, step-config b c)) (step-IsValid b c h v)

-- With a positive threshold, after any sequence of calls on a new breaker: a closed breaker has
-- fewer failures than the threshold, and a breaker that is not closed knows when it last failed.
pub run-IsValid :
    (config : CircuitBreakerConfig) (cs : List Call)
    → 0 < config.failure_threshold
    → IsValid (run (new config) cs)
unfolding new
run-IsValid config cs h = run-IsValid_from cs (new config) h (ground arith)
