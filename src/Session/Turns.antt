-- ===== src/Session/Turns.antt =====
-- How turns find their sessions (src/session.rs).
use openpaw.Prelude.{
  ℕ, ◌≡◌, refl, ◌∙◌, Bool, true, false, none, some, List, [], ◌∷◌, Text, text_keyed, ◌=?◌,
  Option-cases, inl, inr, if◌then◌else◌, text_eq_sound, ap, sym, Bool-cases,
}
use openpaw.Dict as Dict
use openpaw.Session.{SessionManager, get_or_create, begin_turn, end_turn, evict_idle, create, touch}
use openpaw.Session.Idle.{HasKeysOnce, insert-HasKeysOnce, evict_idle-HasKeysOnce}

same_get :
    (k j : Text) (place : ℕ) (table : List (Text × ℕ))
    → Dict.get k table ≡ some place
    → Dict.get j table ≡ (if k =? j then some place else Dict.get j table)
same_get k j place table e = elim (Bool-cases (k =? j)) [
  | inl y ↦ rw y (ap (λ x. Dict.get x table) (sym (text_eq_sound k j y)) ∙ e)
  | inr n ↦ rw n refl
]

module _ {ℓ} {A : Type ℓ} where
  pub get_or_create-fresh :
      (k : Text) (agent : A) (now : ℕ) (m : SessionManager A)
      → Dict.get k m.sessions ≡ none
      → get_or_create k agent now m ≡ create k agent now m
  unfolding get_or_create
  get_or_create-fresh k agent now m e = rw (e, get_or_create) refl

  pub get_or_create-known :
      (k : Text) (agent : A) (now place : ℕ) (m : SessionManager A)
      → Dict.get k m.sessions ≡ some place
      → get_or_create k agent now m ≡ (touch place now m, place)
  unfolding get_or_create
  get_or_create-known k agent now place m e = rw (e, get_or_create) refl

  -- `get_or_create` returns the place of the key's session, the old one or a new one, and every other
  -- key keeps its session: a message never reaches the agent of another key.
  pub get_or_create-get :
      (k j : Text) (agent : A) (now : ℕ) (m : SessionManager A)
      → Dict.get j (get_or_create k agent now m).0.sessions
        ≡ (if k =? j then some (get_or_create k agent now m).1 else Dict.get j m.sessions)
  get_or_create-get k j agent now m = elim (Option-cases (Dict.get k m.sessions)) [
    | inl e ↦ rw (get_or_create-fresh k agent now m e) (Dict.get-insert k j m.places m.sessions)
    | inr (place, e) ↦
        rw (get_or_create-known k agent now place m e) (same_get k j place m.sessions e)
  ]

  pub get_or_create-HasKeysOnce :
      (k : Text) (agent : A) (now : ℕ) (m : SessionManager A)
      → HasKeysOnce m.sessions
      → HasKeysOnce (get_or_create k agent now m).0.sessions
  get_or_create-HasKeysOnce k agent now m h = elim (Option-cases (Dict.get k m.sessions)) [
    | inl e ↦ rw (get_or_create-fresh k agent now m e) (insert-HasKeysOnce k m.places m.sessions h)
    | inr (place, e) ↦ rw (get_or_create-known k agent now place m e) h
  ]

-- What the daemon calls: the halves of a turn, and the eviction.
pub data Call {ℓ} (A : Type ℓ) : Type ℓ where
  begin : Text → A → ℕ → ℕ → Call A
  finish : ℕ → A → Bool → ℕ → Call A
  evict : ℕ → ℕ → Call A

module _ {ℓ} {A : Type ℓ} where
  abbrev pub step : Call A → SessionManager A → SessionManager A
  step (begin k agent now now') m = (begin_turn k agent now now' m).0
  step (finish place agent answered now) m = end_turn place agent answered now m
  step (evict max_idle_secs now) m = (evict_idle max_idle_secs now m).0

  abbrev pub run : List (Call A) → SessionManager A → SessionManager A
  run [] m = m
  run (c ∷ cs) m = run cs (step c m)

  begin_turn-HasKeysOnce :
      (k : Text) (agent : A) (now now' : ℕ) (m : SessionManager A)
      → HasKeysOnce m.sessions
      → HasKeysOnce (begin_turn k agent now now' m).0.sessions
  unfolding begin_turn
  begin_turn-HasKeysOnce k agent now now' m h = get_or_create-HasKeysOnce k agent now m h

  pub end_turn-sessions :
      (place : ℕ) (agent : A) (answered : Bool) (now : ℕ) (m : SessionManager A)
      → (end_turn place agent answered now m).sessions ≡ m.sessions
  unfolding end_turn
  end_turn-sessions place agent true now m = refl
  end_turn-sessions place agent false now m = refl

  pub end_turn-places :
      (place : ℕ) (agent : A) (answered : Bool) (now : ℕ) (m : SessionManager A)
      → (end_turn place agent answered now m).places ≡ m.places
  unfolding end_turn
  end_turn-places place agent true now m = refl
  end_turn-places place agent false now m = refl

  step-HasKeysOnce :
      (c : Call A) (m : SessionManager A) → HasKeysOnce m.sessions → HasKeysOnce (step c m).sessions
  step-HasKeysOnce (begin k agent now now') m h = begin_turn-HasKeysOnce k agent now now' m h
  step-HasKeysOnce (finish place agent answered now) m h =
      rw (end_turn-sessions place agent answered now m) h
  step-HasKeysOnce (evict max_idle_secs now) m h = evict_idle-HasKeysOnce max_idle_secs now m h

  -- Whatever turns begin and end and whenever idle sessions are dropped, no key has two sessions.
  pub run-HasKeysOnce :
      (cs : List (Call A)) (m : SessionManager A)
      → HasKeysOnce m.sessions
      → HasKeysOnce (run cs m).sessions
  run-HasKeysOnce [] m h = h
  run-HasKeysOnce (c ∷ cs) m h = run-HasKeysOnce cs (step c m) (step-HasKeysOnce c m h)
