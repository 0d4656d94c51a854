-- ===== src/Limiter/Entries.antt =====
-- Each provider has a window of its own (src/providers/rate_limiter.rs).
use openpaw.Prelude.{ℕ, ◌≡◌, refl, ◌≢◌, String, string_keyed, =?_refl, Option, arith}
use openpaw.Dict.{get-insert}
use openpaw.Limiter.{
  RateLimiter, ProviderWindow, window_of, store, check_and_wait, record_429, admit, window_429,
}

pub window_of-store :
    (r : RateLimiter) (provider : String) (w : ProviderWindow)
    → window_of (store r provider w) provider ≡ w
unfolding window_of
window_of-store r provider w =
    ground (arith, get-insert provider provider w r.windows, =?_refl provider)

pub window_of-store_ne :
    (r : RateLimiter) (provider other : String) (w : ProviderWindow)
    → provider ≢ other
    → window_of (store r provider w) other ≡ window_of r other
unfolding window_of
window_of-store_ne r provider other w h =
    ground (arith, get-insert provider other w r.windows, string_keyed.beq_iff provider other)

-- A call for one provider reads and writes its window alone: the wait and the window are those of
-- `admit`, and the window of every other provider is as it was.
pub check_and_wait-window_of :
    (r : RateLimiter) (provider other : String) (now : ℕ)
    → provider ≢ other
    → (window_of (check_and_wait r provider now).0 provider ≡ (admit (window_of r provider) now).0)
      × ((check_and_wait r provider now).1 ≡ (admit (window_of r provider) now).1)
      × (window_of (check_and_wait r provider now).0 other ≡ window_of r other)
unfolding check_and_wait
check_and_wait-window_of r provider other now h =
    (window_of-store r provider _, refl, window_of-store_ne r provider other _ h)

pub window_of-check_and_wait :
    (r : RateLimiter) (provider : String) (now : ℕ)
    → window_of (check_and_wait r provider now).0 provider ≡ (admit (window_of r provider) now).0
unfolding check_and_wait
window_of-check_and_wait r provider now = window_of-store r provider _

pub check_and_wait-wait :
    (r : RateLimiter) (provider : String) (now : ℕ)
    → (check_and_wait r provider now).1 ≡ (admit (window_of r provider) now).1
unfolding check_and_wait
check_and_wait-wait r provider now = refl

pub window_of-record_429 :
    (r : RateLimiter) (provider : String) (now : ℕ) (retry_after : Option ℕ)
    → window_of (record_429 r provider now retry_after) provider
      ≡ window_429 (window_of r provider) now retry_after
unfolding record_429
window_of-record_429 r provider now retry_after = window_of-store r provider _
