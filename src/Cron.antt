-- ===== src/Cron.antt =====
-- The schedule of jobs (src/cron.rs): expressions, the search for the next run, and the jobs.
-- An i64 is kept as its 64 bits, a number below 2 ^ 64; clocks are at or after 1970. A text that the
-- program takes apart is a list of code points. The calendar of chrono is a parameter.
pub mod Field
pub mod Expression
pub mod Marks
pub mod Table
pub mod Next
pub mod Data
pub mod Jobs
pub mod Log
pub mod Overlap
pub mod Once
mod Tests
use openpaw.Prelude.{ℕ, Bool, true, false, Option, none, some, List, [], ◌∷◌}

-- What a call does: it returns, it returns an error, or it never returns.
pub data Run {ℓ} (A : Type ℓ) : Type ℓ where
  ok : A → Run A
  err : Run A
  hang : Run A

abbrev pub bind {ℓ κ} : {A : Type ℓ} {B : Type κ} → Run A → (A → Run B) → Run B
bind (ok a) f = f a
bind err f = err
bind hang f = hang

-- `ok_or`: an absent value is an error.
abbrev pub need {ℓ} : {A : Type ℓ} → Option A → Run A
need none = err
need (some a) = ok a
