-- ===== src/Session/Lifetime.antt =====
-- How long a session lives after a turn has begun on it (src/session.rs).
use openpaw.Prelude.{ℕ, Option, none, some, text_keyed, nat_keyed}
use openpaw.Dict as Dict
use openpaw.Session.{Session}

module _ {ℓ} {A : Type ℓ} where
  abbrev active_of : Option (Session A) → Option ℕ
  active_of none = none
  active_of (some session) = some session.last_active
