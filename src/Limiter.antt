-- ===== src/Limiter.antt =====
-- The client-side rate limiter (src/providers/rate_limiter.rs).
-- An `Instant` and a `Duration` are numbers of nanoseconds. `now - window_duration` is compared by
-- adding the duration on the other side, so the clock is taken to reach back at least one window.
-- The sleep of `check_and_wait` happens after its lock is released: it is the caller's, and shows in
-- the times of later calls.
pub mod Entries
pub mod Rate
pub mod Backoff
pub mod Crowd
mod Tests
use openpaw.Prelude.{
  ℕ, ◌+◌, ◌-◌, ◌*◌, ◌%◌, ◌^◌, min, max, Bool, true, false, Option, none, some, List, [], ◌∷◌, ◌++◌,
  String, string_keyed, leb, ltb, if◌then◌else◌, retain, length, head?,
}
use openpaw.Dict

-- `Duration::from_secs`.
abbrev pub from_secs : ℕ → ℕ
from_secs s = s * 1_000_000_000

pub record ProviderWindow : Type 0 where
  pub call_timestamps : List ℕ
  pub backoff_until : Option ℕ
  pub max_calls_per_window : ℕ  -- u32
  pub window_duration : ℕ

unfoldable pub new_window : ℕ → ℕ → ProviderWindow
new_window max_calls duration = record {
  call_timestamps = [];
  backoff_until = none;
  max_calls_per_window = max_calls;
  window_duration = duration;
}

-- A backoff that is over is dropped.
abbrev pub pending_backoff : Option ℕ → ℕ → Option ℕ
pending_backoff none now = none
pending_backoff (some backoff) now = if leb backoff now then none else some backoff

unfoldable pub prune : ProviderWindow → ℕ → ProviderWindow
prune w now = record w {
  call_timestamps = retain (λ t. leb now (t + w.window_duration)) w.call_timestamps;
  backoff_until = pending_backoff w.backoff_until now;
}

-- The wait until the oldest call leaves the window.
abbrev pub release_wait : Option ℕ → ℕ → ℕ → ℕ
release_wait none duration now = 0
release_wait (some oldest) duration now =
    if ltb now (oldest + duration) then oldest + duration - now else 0

-- The wait for the limit, of a pruned window with no backoff.
limit_wait : ProviderWindow → ℕ → ℕ
limit_wait w now =
    if ltb (length w.call_timestamps % 2 ^ 32) w.max_calls_per_window
    then 0
    else release_wait (head? w.call_timestamps) w.window_duration now

-- The wait of a pruned window.
pruned_wait : Option ℕ → ProviderWindow → ℕ → ℕ
pruned_wait none w now = limit_wait w now
pruned_wait (some backoff) w now = if ltb now backoff then backoff - now else limit_wait w now

unfoldable pub wait_duration : ProviderWindow → ℕ → ProviderWindow × ℕ
unfolding prune pruned_wait limit_wait
wait_duration w now = let p = prune w now in (p, pruned_wait p.backoff_until p now)

unfoldable pub record_call : ProviderWindow → ℕ → ProviderWindow
unfolding prune
record_call w now =
    let p = prune w now in record p { call_timestamps = p.call_timestamps ++ now ∷ [] }

-- `retry_after.unwrap_or(30).max(5)`, in seconds.
abbrev pub backoff_secs : Option ℕ → ℕ
backoff_secs none = 30
backoff_secs (some secs) = max secs 5

-- `record_429` of `ProviderWindow`.
unfoldable pub window_429 : ProviderWindow → ℕ → Option ℕ → ProviderWindow
window_429 w now retry_after = record w {
  backoff_until = some (now + from_secs (backoff_secs retry_after));
  call_timestamps = [];
}

-- The locked block of `check_and_wait`: the window after it, and the wait.
unfoldable pub admit : ProviderWindow → ℕ → ProviderWindow × ℕ
unfolding wait_duration record_call
admit w now =
    let (p, wait) = wait_duration w now in
    let capped = min wait (from_secs 10) in
    if ltb 0 wait then (record_call p (now + capped), capped) else (record_call p now, 0)

pub record RateLimiter : Type 0 where
  pub windows : List (String × ProviderWindow)
  pub default_max_per_window : ℕ  -- u32
  pub default_window_secs : ℕ  -- u64

unfoldable pub new : ℕ → ℕ → RateLimiter
new max_per_window window_secs = record {
  windows = [];
  default_max_per_window = max_per_window;
  default_window_secs = window_secs;
}

-- `windows.entry(provider_name).or_insert_with(..)`: the provider's window.
unfoldable pub window_of : RateLimiter → String → ProviderWindow
unfolding new_window
window_of r provider = elim (Dict.get provider r.windows) [
  | none ↦ new_window r.default_max_per_window (from_secs r.default_window_secs)
  | some w ↦ w
]

-- The write of a window that an entry lent out.
abbrev pub store : RateLimiter → String → ProviderWindow → RateLimiter
store r provider w = record r { windows = Dict.insert provider w r.windows }

unfoldable pub check_and_wait : RateLimiter → String → ℕ → RateLimiter × ℕ
unfolding window_of admit
check_and_wait r provider now =
    let (w, wait) = admit (window_of r provider) now in (store r provider w, wait)

unfoldable pub record_429 : RateLimiter → String → ℕ → Option ℕ → RateLimiter
unfolding window_of window_429
record_429 r provider now retry_after =
    store r provider (window_429 (window_of r provider) now retry_after)

unfoldable pub current_window_count : RateLimiter → String → ℕ → RateLimiter × ℕ
unfolding window_of prune
current_window_count r provider now =
    let w = prune (window_of r provider) now in
    (store r provider w, length w.call_timestamps % 2 ^ 32)
