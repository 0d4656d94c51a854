-- ===== src/Session.antt =====
-- The sessions of the program (src/session.rs). A session is a shared object: the table holds its
-- place in the store, and a turn that runs keeps the place after the table has dropped it. What an
-- agent is and how it answers are arguments; `flush_memories` of an agent changes no session.
pub mod Idle
pub mod Turns
pub mod Places
pub mod Lifetime
mod Tests
use openpaw.Prelude.{
  ℕ, ◌+◌, ◌%◌, ◌^◌, Bool, true, false, Option, none, some, List, [], ◌∷◌, ◌++◌, Text, text_keyed,
  nat_keyed, if◌then◌else◌, ltb, length, any, text_eq,
}
use openpaw.Dict as Dict

-- Times are seconds; the counters are u64.
pub record Session {ℓ} (A : Type ℓ) : Type ℓ where
  pub agent : A
  pub created_at : ℕ
  pub last_active : ℕ
  pub session_key : Text
  pub turn_count : ℕ

-- The table, from a key to a place, and the store, from a place to a session. Places are numbered in
-- the order in which they were made.
pub record SessionManager {ℓ} (A : Type ℓ) : Type ℓ where
  pub sessions : List (Text × ℕ)
  pub store : List (ℕ × Session A)
  pub places : ℕ

-- The keys to remove.
abbrev pub idle_keys : (ℕ → Bool) → List (Text × ℕ) → List Text
idle_keys idle [] = []
idle_keys idle ((k, place) ∷ ws) =
    let rest = idle_keys idle ws in if idle place then k ∷ rest else rest

abbrev pub remove_all : List Text → List (Text × ℕ) → List (Text × ℕ)
remove_all [] table = table
remove_all (k ∷ ks) table = remove_all ks (Dict.remove k table)

module _ {ℓ} {A : Type ℓ} where
  unfoldable pub new : SessionManager A
  new = record { sessions = []; store = []; places = 0 }

  unfoldable pub new_session : A → Text → ℕ → Session A
  new_session agent session_key now = record {
    agent = agent;
    created_at = now;
    last_active = now;
    session_key = session_key;
    turn_count = 0;
  }

  abbrev pub set_active : ℕ → Session A → Session A
  set_active now session = record session { last_active = now }

  abbrev pub touch : ℕ → ℕ → SessionManager A → SessionManager A
  touch place now m = record m { store = Dict.update place (set_active now) m.store }

  -- A session that is not in the table, with the agent that the configuration gives it.
  abbrev pub create : Text → A → ℕ → SessionManager A → SessionManager A × ℕ
  create session_key agent now m = (
    record {
      sessions = Dict.insert session_key m.places m.sessions;
      store = (m.places, new_session agent session_key now) ∷ m.store;
      places = m.places + 1;
    },
    m.places,
  )

  unfoldable pub get_or_create : Text → A → ℕ → SessionManager A → SessionManager A × ℕ
  unfolding new_session
  get_or_create session_key agent now m = elim (Dict.get session_key m.sessions) [
    | some place ↦ (touch place now m, place)
    | none ↦ create session_key agent now m
  ]

  -- The first half of `process_message`: the place of the session, whose agent is locked next.
  unfoldable pub begin_turn : Text → A → ℕ → ℕ → SessionManager A → SessionManager A × ℕ
  unfolding get_or_create
  begin_turn session_key agent now now' m =
      let (m', place) = get_or_create session_key agent now m in (touch place now' m', place)

  abbrev pub after_turn : A → ℕ → Session A → Session A
  after_turn agent now session = record session {
    agent = agent;
    turn_count = (session.turn_count + 1) % 2 ^ 64;
    last_active = now;
  }

  -- The second half, with the agent that the turn left: after an error nothing is counted.
  unfoldable pub end_turn : ℕ → A → Bool → ℕ → SessionManager A → SessionManager A
  end_turn place agent answered now m =
      if answered
      then record m { store = Dict.update place (after_turn agent now) m.store }
      else record m {
        store = Dict.update place (λ session. record session { agent = agent }) m.store;
      }

  -- `active + max_idle_secs < now`, of the session at a place; the sum is a u64.
  abbrev pub is_idle : ℕ → ℕ → SessionManager A → ℕ → Bool
  is_idle max_idle_secs now m place = elim (Dict.get place m.store) [
    | none ↦ false
    | some session ↦ ltb ((session.last_active + max_idle_secs) % 2 ^ 64) now
  ]

  -- The sessions that stay, and how many went.
  unfoldable pub evict_idle : ℕ → ℕ → SessionManager A → SessionManager A × ℕ
  evict_idle max_idle_secs now m =
      let to_remove = idle_keys (is_idle max_idle_secs now m) m.sessions in
      (record m { sessions = remove_all to_remove m.sessions }, length to_remove)

  unfoldable pub session_count : SessionManager A → ℕ
  session_count m = length m.sessions
