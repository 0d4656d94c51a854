-- ===== src/Provider/Budget.antt =====
-- How many calls of a service the retries come to (src/providers/reliable.rs).
use openpaw.Prelude.{
  ℕ, ◌+◌, ◌-◌, ◌^◌, ◌≤◌, ◌<◌, suc, zero, ◌≡◌, refl, false, arith, Bool-cases, inl, inr, ◌∙◌, Text,
}
use openpaw.Provider.{Reply, ok, err, hung, SharedRetryState, can_retry, increment_attempts}
use openpaw.Provider.Classify.{Outside}
use openpaw.Provider.Reliable.{
  Clock, ReliableProvider, enter, succeeded, failed, react, attempt_loop, gives_up, next_backoff,
  open_message, chat_with_retry, provider,
}
use openpaw.Provider.Spent.{increment_attempts-counts, IsFree, Spent, IsThrifty, error-Spent}

module _ {ℓ κ} {W : Type ℓ} {R : Type κ} (calls : W → ℕ) where
  module _ (o : Outside) (clock : Clock W) (p : ReliableProvider W R)
      (free : IsFree calls clock p.circuit_breaker) (thrifty : IsThrifty calls p.inner) where
    can_go :
        (msg : Text) (shared : SharedRetryState)
        → gives_up o msg shared ≡ false
        → shared.total_attempts < shared.max_total
    unfolding can_retry
    can_go msg shared h = ground arith

    react-Spent :
        (again : SharedRetryState → W → Reply R × SharedRetryState × W) (backoff_ms : ℕ)
        (shared : SharedRetryState) (w w' : W) (out : Reply R × SharedRetryState × W)
        → shared.max_total < 2 ^ 32
        → calls w' ≡ calls w
        → Spent calls 1 shared w' out
        → ((later : SharedRetryState) (v : W)
            → later.max_total ≡ shared.max_total
            → shared.total_attempts < later.total_attempts
            → later.total_attempts ≤ shared.max_total
            → Spent calls 1 later v (again later v))
        → Spent calls 1 shared w (react o clock p again backoff_ms out)
    react-Spent again backoff_ms shared w w' (ok resp, shared', v) small e s next =
        let f : calls (succeeded o clock p v) ≡ calls v = free.1 _ v in
        record {
          returned = λ h. cc;
          limit = s.limit;
          counted = s.counted;
          within = s.within;
          paid = omega (arith, s.paid, f);
        }
    react-Spent again backoff_ms shared w w' (err msg, shared', v) small e s next =
        let f : calls (failed o clock p v) ≡ calls v = free.1 _ v in
        elim (Bool-cases (gives_up o msg shared')) [
          | inl y ↦ rw y (record {
            returned = λ h. cc;
            limit = s.limit;
            counted = s.counted;
            within = s.within;
            paid = omega (arith, s.paid, f);
          })
          | inr n ↦
              let go : shared'.total_attempts < shared'.max_total = can_go msg shared' n in
              let step = increment_attempts-counts shared' (rw s.limit small) go in
              let v' = clock.sleep backoff_ms (failed o clock p v) in
              let slept : calls v' ≡ calls (failed o clock p v) = free.0 _ _ in
              let rest =
                next (increment_attempts shared') v' (step.0 ∙ s.limit)
                  (omega (arith, s.counted, step.1)) (omega (arith, s.limit, step.1)) in
              rw n (record {
                returned = rest.returned;
                limit = rest.limit ∙ step.0 ∙ s.limit;
                counted = omega (arith, rest.counted, s.counted, step.1);
                within = omega (arith, rest.within, step.0, step.1, s.limit);
                paid = omega (arith, rest.paid, s.paid, f, slept, step.1);
              })
        ]
    react-Spent again backoff_ms shared w w' (hung, shared', v) small e s next =
        absurd (s.returned refl)

    attempt_loop-Spent :
        (fuel backoff_ms : ℕ) (shared : SharedRetryState) (w : W)
        → shared.max_total < 2 ^ 32
        → shared.max_total - shared.total_attempts < fuel
        → Spent calls 1 shared w (attempt_loop o clock p fuel backoff_ms shared w)
    unfolding attempt_loop
    attempt_loop-Spent zero backoff_ms shared w small enough = omega arith
    attempt_loop-Spent (suc fuel) backoff_ms shared w small enough =
        let (w', allowed) = enter o clock p w in
        let e : calls w' ≡ calls w = free.1 _ w in
        elim (Bool-cases allowed) [
          | inl y ↦ rw y (
              react-Spent (attempt_loop o clock p fuel (next_backoff p.max_backoff_ms backoff_ms))
                backoff_ms shared w w' (p.inner.chat_with_retry shared w') small e
                (thrifty shared w' small)
                (λ later v same more le.
                  attempt_loop-Spent fuel (next_backoff p.max_backoff_ms backoff_ms) later v
                    (omega arith) (omega arith)))
          | inr n ↦ rw n (error-Spent calls 1 open_message shared w w' e)
        ]

    -- A provider with retries over a thrifty one is thrifty: its loop ends, with one call of the
    -- service and one more for each retry that it counts, and it counts none beyond the limit.
    pub provider-IsThrifty : IsThrifty calls (provider o clock p)
    unfolding chat_with_retry
    provider-IsThrifty shared w small =
        attempt_loop-Spent (shared.max_total - shared.total_attempts + 1) p.initial_backoff_ms
          shared w small (omega arith)
