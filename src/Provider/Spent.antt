-- ===== src/Provider/Spent.antt =====
-- The cost of a call of a provider, counted in calls of services and in retries
-- (src/providers/mod.rs).
use openpaw.Prelude.{
  ◌*◌, Option, none, some, ℕ, ◌+◌, ◌^◌, ◌≤◌, ◌<◌, max, ◌≡◌, refl, ◌≢◌, arith, Text,
}
use openpaw.Breaker.{CircuitBreaker}
use openpaw.Provider.{Provider, Reply, err, hung, SharedRetryState, increment_attempts}
use openpaw.Provider.Fallback.{waited}
use openpaw.Provider.Reliable.{Clock, Place}

pub increment_attempts-counts :
    (shared : SharedRetryState)
    → shared.max_total < 2 ^ 32
    → shared.total_attempts < shared.max_total
    → ((increment_attempts shared).max_total ≡ shared.max_total)
      × ((increment_attempts shared).total_attempts ≡ shared.total_attempts + 1)
unfolding increment_attempts
increment_attempts-counts shared small lt = (refl, omega arith)

-- Objects in the world and the clock that leave a count alone.
abbrev pub IsFree {ℓ} : {W : Type ℓ} → (W → ℕ) → Clock W → Place W CircuitBreaker → Type ℓ
IsFree {W = W} calls clock place =
    ((ms : ℕ) (w : W) → calls (clock.sleep ms w) ≡ calls w)
    × ((b : CircuitBreaker) (w : W) → calls (place.write b w) ≡ calls w)

pub waited-free {ℓ} :
    {W : Type ℓ} (calls : W → ℕ) (clock : Clock W)
    → ((ms : ℕ) (w : W) → calls (clock.sleep ms w) ≡ calls w)
    → (wait : Option ℕ) (w : W) → calls (waited clock wait w) ≡ calls w
waited-free calls clock free none w = refl
waited-free calls clock free (some secs) w = free (1000 * secs) w

module _ {ℓ κ} {W : Type ℓ} {R : Type κ} (calls : W → ℕ) where
  -- A call came back: it took `most` calls of services or fewer and one more for each retry that it
  -- counted, and counted none beyond the limit.
  pub record Spent (most : ℕ) (shared : SharedRetryState) (w : W)
      (out : Reply R × SharedRetryState × W) : Type (ℓ ⊔ κ) where
    pub returned : out.0 ≢ hung
    pub limit : out.1.max_total ≡ shared.max_total
    pub counted : shared.total_attempts ≤ out.1.total_attempts
    pub within : out.1.total_attempts ≤ max shared.total_attempts shared.max_total
    pub paid : calls out.2 + shared.total_attempts ≤ calls w + out.1.total_attempts + most

  pub more-Spent :
      (n : ℕ) (shared : SharedRetryState) (w : W) (out : Reply R × SharedRetryState × W) (m : ℕ)
      → m ≤ n
      → Spent m shared w out
      → Spent n shared w out
  more-Spent n shared w out m le s = record {
    returned = s.returned;
    limit = s.limit;
    counted = s.counted;
    within = s.within;
    paid = omega (arith, s.paid);
  }

  -- A provider whose calls all do.
  abbrev pub IsThrifty : Provider W R → Type (ℓ ⊔ κ)
  IsThrifty p =
      (shared : SharedRetryState) (w : W)
      → shared.max_total < 2 ^ 32
      → Spent 1 shared w (p.chat_with_retry shared w)

  pub error-Spent :
      (n : ℕ) (msg : Text) (shared : SharedRetryState) (w w' : W)
      → calls w' ≡ calls w
      → Spent n shared w (err msg, shared, w')
  error-Spent n msg shared w w' e = record {
    returned = λ h. cc;
    limit = refl;
    counted = omega arith;
    within = omega arith;
    paid = omega arith;
  }
