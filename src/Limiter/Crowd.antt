-- ===== src/Limiter/Crowd.antt =====
-- Callers that come together while the window is full (src/providers/rate_limiter.rs). The lock is
-- released before the sleep, so each of them reads the window at the same time.
use mathlib.Core.List.{append_assoc, append-nil}
use mathlib.Core.Path.{ap₂}
use openpaw.Prelude.{
  ap, ◌∙◌, ℕ, zero, suc, ◌+◌, ◌-◌, ◌≤◌, ◌<◌, ◌≡◌, refl, ◌^◌, ◌++◌, min, String, none, arith, List,
  [], ◌∷◌, All, length, length-append, replicate, retain, leb,
}
use openpaw.Limiter.{RateLimiter, ProviderWindow, from_secs, window_of, check_and_wait, admit}
use openpaw.Limiter.Entries.{window_of-check_and_wait, check_and_wait-wait}

-- `k` callers at the same time: the limiter after them, and their waits.
unfoldable pub burst : RateLimiter → String → ℕ → ℕ → RateLimiter × List ℕ
burst r provider now zero = (r, [])
burst r provider now (suc k) =
    let (r', wait) = check_and_wait r provider now in
    let (r'', waits) = burst r' provider now k in (r'', wait ∷ waits)

retain-All :
    (o end d : ℕ) (ts : List ℕ)
    → end ≤ o + d
    → All (λ t. o ≤ t) ts
    → retain (λ t. leb end (t + d)) ts ≡ ts
retain-All o end d [] h all = refl
retain-All o end d (t ∷ ts) h all = ground (arith, retain-All o end d ts h all.1)

All-append_one :
    (o e : ℕ) (ts : List ℕ) → o ≤ e → All (λ t. o ≤ t) ts → All (λ t. o ≤ t) (ts ++ e ∷ [])
All-append_one o e [] h all = (h, tt)
All-append_one o e (t ∷ ts) h all = (all.0, All-append_one o e ts h all.1)

-- A full window: its oldest call `o` is in the window at `now`, and there is no backoff.
pub record IsFull (o d m now : ℕ) (ts : List ℕ) (w : ProviderWindow) : Type 0 where
  pub calls : w.call_timestamps ≡ o ∷ ts
  pub calm : w.backoff_until ≡ none
  pub limit : w.max_calls_per_window ≡ m
  pub duration : w.window_duration ≡ d
  pub oldest : All (λ t. o ≤ t) ts
  pub full : m ≤ length (o ∷ ts)
  pub began : o ≤ now
  pub holds : now < o + d

-- The wait of every caller.
abbrev pub crowd_wait : ℕ → ℕ → ℕ → ℕ
crowd_wait o d now = min (o + d - now) (from_secs 10)

module _ (o d m now : ℕ) (ts : List ℕ) (w : ProviderWindow) (f : IsFull o d m now ts w)
    (word : length (o ∷ ts) < 2 ^ 32) where
  admit-full_wait : (admit w now).1 ≡ crowd_wait o d now
  unfolding admit
  admit-full_wait = ground (arith, retain-All o now d ts (omega arith) f.oldest)

  admit-full_calls : (admit w now).0.call_timestamps ≡ o ∷ (ts ++ (now + crowd_wait o d now) ∷ [])
  unfolding admit
  admit-full_calls = ground (
    arith,
    retain-All o now d ts (omega arith) f.oldest,
    retain-All o (now + crowd_wait o d now) d ts (omega arith) f.oldest,
  )

  admit-full_rest :
      ((admit w now).0.max_calls_per_window ≡ m)
      × ((admit w now).0.window_duration ≡ d)
      × ((admit w now).0.backoff_until ≡ none)
  unfolding admit
  admit-full_rest = ground (arith, retain-All o now d ts (omega arith) f.oldest)

  admit-IsFull : IsFull o d m now (ts ++ (now + crowd_wait o d now) ∷ []) (admit w now).0
  admit-IsFull = record {
    calls = admit-full_calls;
    calm = admit-full_rest.2;
    limit = admit-full_rest.0;
    duration = admit-full_rest.1;
    oldest = All-append_one o (now + crowd_wait o d now) ts (omega arith) f.oldest;
    full = omega (arith, f.full, length-append ts ((now + crowd_wait o d now) ∷ []));
    began = f.began;
    holds = f.holds;
  }

replicate-append_one {ℓ} :
    {A : Type ℓ} (xs : List A) (a : A) (k : ℕ)
    → (xs ++ a ∷ []) ++ replicate k a ≡ xs ++ replicate (suc k) a
replicate-append_one xs a k = append_assoc xs (a ∷ []) (replicate k a)

-- While the window is full, all callers of one moment are told the same wait and are booked for the
-- same later moment: `k` of them make `k` calls then, whatever the limit is. (The window has an
-- oldest call still in it and no backoff, and fewer than 2 ^ 32 calls in all.)
pub burst_lem :
    (r : RateLimiter) (provider : String) (o d m now k : ℕ) (ts : List ℕ)
    → IsFull o d m now ts (window_of r provider)
    → length (o ∷ ts) + k < 2 ^ 32
    → let (r', waits) = burst r provider now k in
      (waits ≡ replicate k (crowd_wait o d now))
      × ((window_of r' provider).call_timestamps
          ≡ o ∷ (ts ++ replicate k (now + crowd_wait o d now)))
unfolding burst
burst_lem r provider o d m now zero ts f word = (refl, rw append-nil f.calls)
burst_lem r provider o d m now (suc k) ts f word =
    let W = crowd_wait o d now in
    let w = window_of r provider in
    let r' = (check_and_wait r provider now).0 in
    let small : length (o ∷ ts) < 2 ^ 32 = omega arith in
    let f' : IsFull o d m now (ts ++ (now + W) ∷ []) (window_of r' provider) =
      rw window_of-check_and_wait (admit-IsFull o d m now ts w f small) in
    let (waits, calls) =
      burst_lem r' provider o d m now k (ts ++ (now + W) ∷ []) f'
        (omega (arith, length-append ts ((now + W) ∷ []))) in
    (
      ap₂ ◌∷◌ (check_and_wait-wait r provider now ∙ admit-full_wait o d m now ts w f small) waits,
      calls ∙ ap (◌∷◌ o) (replicate-append_one ts (now + W) k),
    )
