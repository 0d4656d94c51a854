-- ===== src/Limiter/Rate.antt =====
-- The limit that the rate limiter (src/providers/rate_limiter.rs) keeps for one caller.
use openpaw.Prelude.{
  String, string_keyed, Bool-cases, inl, inr, All, dec_lt, if◌then◌else◌, ℕ, ◌+◌, ◌≤◌, ◌<◌, ◌≡◌,
  refl, ◌^◌, ◌++◌, List, [], ◌∷◌, Bool, none, arith, length, retain, count, count-append, ltb, leb,
  head?,
}
use openpaw.Limiter.Entries.{window_of-check_and_wait, check_and_wait-wait}
use openpaw.Limiter.{
  RateLimiter, window_of, check_and_wait, new, ProviderWindow, from_secs, admit, new_window,
  release_wait,
}

count-le {ℓ} : {A : Type ℓ} (p : A → Bool) (xs : List A) → count p xs ≤ length xs
count-le p [] = omega arith
count-le p (x ∷ xs) = ground (arith, count-le p xs)

count-retain-le {ℓ} :
    {A : Type ℓ} (p q : A → Bool) (xs : List A) → count p (retain q xs) ≤ count p xs
count-retain-le p q [] = omega arith
count-retain-le p q (x ∷ xs) = ground (arith, count-retain-le p q xs)

length-retain-recent :
    (d end now : ℕ) (ts : List ℕ)
    → end < now
    → length (retain (λ t. leb now (t + d)) ts) ≤ count (λ t. ltb end (t + d)) ts
length-retain-recent d end now [] h = omega arith
length-retain-recent d end now (t ∷ ts) h = ground (arith, length-retain-recent d end now ts h)

-- Once the oldest call has left the window, at most the others count.
count-head :
    (d end t : ℕ) (ts : List ℕ) → t + d ≤ end → count (λ s. ltb end (s + d)) (t ∷ ts) ≤ length ts
count-head d end t ts h = ground (arith, count-le (λ s. ltb end (s + d)) ts)

-- The wait of a pruned list of calls, all of them at most `m` and `m` positive.
abbrev wait_of : List ℕ → ℕ → ℕ → ℕ → ℕ
wait_of ps m d now = if ltb (length ps) m then 0 else release_wait (head? ps) d now

-- The calls that count after the wait, with the new one, are at most `m`.
recent-wait :
    (ps : List ℕ) (m d now : ℕ)
    → 0 < m
    → length ps ≤ m
    → All (λ t. now ≤ t + d) ps
    → let end = now + wait_of ps m d now in count (λ t. ltb end (t + d)) ps + 1 ≤ m
recent-wait [] m d now pos len fresh = ground arith
recent-wait (t ∷ ts) m d now pos len fresh = elim (dec_lt (length (t ∷ ts)) m) [
  | yes p ↦ ground (arith, count-le (λ s. ltb (now + wait_of (t ∷ ts) m d now) (s + d)) (t ∷ ts))
  | no p ↦
      let released : t + d ≤ now + wait_of (t ∷ ts) m d now = ground arith in
      omega (arith, count-head d (now + wait_of (t ∷ ts) m d now) t ts released)
]

retain-fresh : (d now : ℕ) (ts : List ℕ) → All (λ t. now ≤ t + d) (retain (λ t. leb now (t + d)) ts)
retain-fresh d now [] = tt
retain-fresh d now (t ∷ ts) = ground (arith, retain-fresh d now ts)

-- What a serial caller keeps: no backoff, no call later than `end`, and at most the limit of
-- calls in the window before `end`.
pub record IsWithin (m d end : ℕ) (w : ProviderWindow) : Type 0 where
  pub limit : w.max_calls_per_window ≡ m
  pub duration : w.window_duration ≡ d
  pub no_backoff : w.backoff_until ≡ none
  pub past : All (λ t. t ≤ end) w.call_timestamps
  pub rate : count (λ t. ltb end (t + d)) w.call_timestamps ≤ m

All-retain {ℓ κ} :
    {A : Type ℓ} (P : A → Type κ) (p : A → Bool) (xs : List A) → All P xs → All P (retain p xs)
All-retain P p [] h = h
All-retain P p (x ∷ xs) h = elim (Bool-cases (p x)) [
  | inl e ↦ rw e (h.0, All-retain P p xs h.1)
  | inr e ↦ rw e (All-retain P p xs h.1)
]

All-le : (a b : ℕ) (xs : List ℕ) → a ≤ b → All (λ t. t ≤ a) xs → All (λ t. t ≤ b) xs
All-le a b [] le h = h
All-le a b (x ∷ xs) le h = (omega arith, All-le a b xs le h.1)

All-le_append : (b : ℕ) (xs : List ℕ) → All (λ t. t ≤ b) xs → All (λ t. t ≤ b) (xs ++ b ∷ [])
All-le_append b [] h = (omega arith, tt)
All-le_append b (x ∷ xs) h = (h.0, All-le_append b xs h.1)

release_wait-le :
    (d now : ℕ) (ps : List ℕ) → All (λ t. t ≤ now) ps → release_wait (head? ps) d now ≤ d
release_wait-le d now [] h = omega arith
release_wait-le d now (t ∷ ts) h = ground arith

-- `admit` of a window with no backoff and no more calls than the limit.
module _ (w : ProviderWindow) (m d now : ℕ) (ps : List ℕ)
    (kept : ps ≡ retain (λ t. leb now (t + d)) w.call_timestamps)
    (limit : w.max_calls_per_window ≡ m) (duration : w.window_duration ≡ d)
    (calm : w.backoff_until ≡ none) (few : length ps ≤ m) (word : m < 2 ^ 32)
    (short : release_wait (head? ps) d now ≤ from_secs 10) where
  admit-wait : (admit w now).1 ≡ wait_of ps m d now
  unfolding admit
  admit-wait = ground arith

  admit-calls :
      (admit w now).0.call_timestamps
      ≡ retain (λ t. leb (now + wait_of ps m d now) (t + d)) ps ++ (now + wait_of ps m d now) ∷ []
  unfolding admit
  admit-calls = ground arith

  admit-rest :
      ((admit w now).0.max_calls_per_window ≡ m)
      × ((admit w now).0.window_duration ≡ d)
      × ((admit w now).0.backoff_until ≡ none)
  unfolding admit
  admit-rest = ground arith

  admit-IsWithin :
      0 < m
      → All (λ t. now ≤ t + d) ps
      → All (λ t. t ≤ now) ps
      → IsWithin m d (now + (admit w now).1) (admit w now).0
  admit-IsWithin pos fresh past =
      let end = now + wait_of ps m d now in
      let test : List ℕ → ℕ = count (λ t. ltb end (t + d)) in
      let kept_ps = retain (λ t. leb end (t + d)) ps in
      let added : test (end ∷ []) ≤ 1 = ground (arith) in
      rw admit-wait (record {
        limit = admit-rest.0;
        duration = admit-rest.1;
        no_backoff = admit-rest.2;
        past = rw admit-calls (
            All-le_append end kept_ps (
              All-retain (λ t. t ≤ end) (λ t. leb end (t + d)) ps
                (All-le now end ps (omega arith) past)));
        rate = rw admit-calls (
            omega (
              arith,
              count-append (λ t. ltb end (t + d)) kept_ps (end ∷ []),
              count-retain-le (λ t. ltb end (t + d)) (λ t. leb end (t + d)) ps,
              recent-wait ps m d now pos few fresh,
            ));
      })

-- One call of a serial caller keeps the rate.
admit-serial :
    (w : ProviderWindow) (m d end now : ℕ)
    → 0 < m
    → m < 2 ^ 32
    → d ≤ from_secs 10
    → end < now
    → IsWithin m d end w
    → IsWithin m d (now + (admit w now).1) (admit w now).0
admit-serial w m d end now pos word short later v =
    let ps = retain (λ t. leb now (t + d)) w.call_timestamps in
    let past = All-le end now ps (omega arith) (All-retain (λ t. t ≤ end) _ _ v.past) in
    admit-IsWithin w m d now ps refl v.limit v.duration v.no_backoff
      (omega (arith, length-retain-recent d end now w.call_timestamps later, v.rate)) word
      (omega (arith, release_wait-le d now ps past)) pos (retain-fresh d now w.call_timestamps) past

-- The window after such a call, with the call at its end.
admit-serial_calls :
    (w : ProviderWindow) (m d end now : ℕ)
    → m < 2 ^ 32
    → d ≤ from_secs 10
    → end < now
    → IsWithin m d end w
    → let called = now + (admit w now).1 in
      (admit w now).0.call_timestamps
      ≡ retain (λ t. leb called (t + d)) (retain (λ t. leb now (t + d)) w.call_timestamps)
        ++ called ∷ []
admit-serial_calls w m d end now word short later v =
    let ps = retain (λ t. leb now (t + d)) w.call_timestamps in
    let past = All-le end now ps (omega arith) (All-retain (λ t. t ≤ end) _ _ v.past) in
    let few : length ps ≤ m =
      omega (arith, length-retain-recent d end now w.call_timestamps later, v.rate) in
    let brief : release_wait (head? ps) d now ≤ from_secs 10 =
      omega (arith, release_wait-le d now ps past) in
    rw (admit-wait w m d now ps refl v.limit v.duration v.no_backoff few word brief)
      (admit-calls w m d now ps refl v.limit v.duration v.no_backoff few word brief)

-- The calls later than `end - d`.
abbrev pub recent : ℕ → ℕ → List ℕ → ℕ
recent d end = count (λ t. ltb end (t + d))

-- What was called by `end` counts no more than the limiter's list does, now and later.
abbrev Counts : ℕ → ℕ → List ℕ → List ℕ → Type 0
Counts d end calls stored = (e : ℕ) → end ≤ e → recent d e calls ≤ recent d e stored

count-retain :
    (d e x : ℕ) (ts : List ℕ)
    → x ≤ e
    → count (λ t. ltb e (t + d)) (retain (λ t. leb x (t + d)) ts) ≡ count (λ t. ltb e (t + d)) ts
count-retain d e x [] h = refl
count-retain d e x (t ∷ ts) h = ground (arith, count-retain d e x ts h)

stored-Counts :
    (d end now called : ℕ) (calls stored : List ℕ)
    → end < now
    → now ≤ called
    → Counts d end calls stored
    → Counts d called
        (called ∷ calls)
        (retain (λ t. leb called (t + d)) (retain (λ t. leb now (t + d)) stored) ++ called ∷ [])
stored-Counts d end now called calls stored later wait h e le =
    let kept = retain (λ t. leb now (t + d)) stored in
    omega (
      arith,
      count-append (λ t. ltb e (t + d)) (retain (λ t. leb called (t + d)) kept) (called ∷ []),
      count-retain d e called kept le,
      count-retain d e now stored (omega arith),
      h e (omega arith),
    )

-- The calls of a caller to one provider, the latest first, with the time of the latest: it asks the
-- limiter at the given times, and calls when the wait that it is told is over.
unfoldable pub serve : RateLimiter → String → ℕ → List ℕ → List ℕ → ℕ × List ℕ
serve r provider end calls [] = (end, calls)
serve r provider end calls (now ∷ times) =
    let (r', wait) = check_and_wait r provider now in
    serve r' provider (now + wait) ((now + wait) ∷ calls) times

-- Each time at which the caller asks is later than its call before: it sleeps the wait.
abbrev pub Sleeps : RateLimiter → String → ℕ → List ℕ → Type 0
Sleeps r provider end [] = Unit
Sleeps r provider end (now ∷ times) =
    (end < now)
    × Sleeps (check_and_wait r provider now).0 provider (now + (check_and_wait r provider now).1)
        times

serve-rate :
    (r : RateLimiter) (provider : String) (m d end : ℕ) (calls times : List ℕ)
    → 0 < m
    → m < 2 ^ 32
    → d ≤ from_secs 10
    → Sleeps r provider end times
    → IsWithin m d end (window_of r provider)
    → Counts d end calls (window_of r provider).call_timestamps
    → let (end', calls') = serve r provider end calls times in recent d end' calls' ≤ m
unfolding serve
serve-rate r provider m d end calls [] pos word short sleeps v c =
    omega (arith, v.rate, c end (omega arith))
serve-rate r provider m d end calls (now ∷ times) pos word short sleeps v c =
    let (r', wait) = check_and_wait r provider now in
    let w = window_of r provider in
    serve-rate r' provider m d (now + wait) ((now + wait) ∷ calls) times pos word short sleeps.1
      (rw (window_of-check_and_wait, check_and_wait-wait)
        (admit-serial w m d end now pos word short sleeps.0 v))
      (rw
        (
          window_of-check_and_wait,
          check_and_wait-wait,
          admit-serial_calls w m d end now word short sleeps.0 v,
        )
        (stored-Counts d end now (now + (admit w now).1) calls w.call_timestamps sleeps.0
          (omega arith) c))

-- A caller that sleeps each wait before its call keeps to the limit: with a window of at most 10
-- seconds, a positive limit below 2 ^ 32 and no 429, after any number of calls to a provider through
-- a new limiter at most the limit of the calls that it made lie in the window before the last one.
pub serve-recent :
    (limit window_secs : ℕ) (provider : String) (times : List ℕ)
    → 0 < limit
    → limit < 2 ^ 32
    → window_secs ≤ 10
    → Sleeps (new limit window_secs) provider 0 times
    → let (last, calls) = serve (new limit window_secs) provider 0 [] times in
      recent (from_secs window_secs) last calls ≤ limit
unfolding new window_of new_window
serve-recent limit window_secs provider times pos word short sleeps =
    serve-rate (new limit window_secs) provider limit (from_secs window_secs) 0 [] times pos word
      (omega arith) sleeps
      (record { limit = refl; duration = refl; no_backoff = refl; past = tt; rate = omega arith })
      (λ e le. omega arith)
