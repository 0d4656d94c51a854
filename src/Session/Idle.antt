-- ===== src/Session/Idle.antt =====
-- Which sessions `evict_idle` (src/session.rs) drops.
use openpaw.Prelude.{
  ℕ, ◌≡◌, refl, sym, ap, ◌∙◌, Bool, true, false, Option, none, some, List, [], ◌∷◌, Text,
  text_eq_sound, text_keyed, ◌=?◌, =?_sym, if-has, arith, any, Bool-cases, Option-cases, inl, inr,
  if◌then◌else◌,
}
use openpaw.Dict as Dict
use openpaw.Session.{SessionManager, is_idle, idle_keys, remove_all, evict_idle}

-- No key stands twice in a table.
abbrev pub HasKeysOnce : List (Text × ℕ) → Type 0
HasKeysOnce [] = Unit
HasKeysOnce ((k, place) ∷ table) = (Dict.get k table ≡ none) × HasKeysOnce table

pub get-remove_all :
    (ks : List Text) (table : List (Text × ℕ)) (k : Text)
    → Dict.get k (remove_all ks table) ≡ (if any (λ x. x =? k) ks then none else Dict.get k table)
get-remove_all [] table k = refl
get-remove_all (x ∷ ks) table k =
    get-remove_all ks (Dict.remove x table) k ∙ ground (arith, Dict.get-remove x k table)

-- A key is removed if the session at its place is idle.
idle_keys-get :
    (idle : ℕ → Bool) (table : List (Text × ℕ)) (k : Text)
    → HasKeysOnce table
    → any (λ x. x =? k) (idle_keys idle table)
      ≡ (elim (Dict.get k table) [ none ↦ false | some place ↦ idle place ])
idle_keys-get idle [] k h = refl
idle_keys-get idle ((j, place) ∷ table) k h =
    let rest = idle_keys-get idle table k h.1 in
    elim (Bool-cases (j =? k)) [
      | inl y ↦
          let gone : Dict.get k table ≡ none =
            ap (λ x. Dict.get x table) (sym (text_eq_sound j k y)) ∙ h.0 in
          let quiet : any (λ x. x =? k) (idle_keys idle table) ≡ false = rest ∙ rw gone refl in
          rw y (ground (arith, y, quiet))
      | inr n ↦ rw n (elim (Bool-cases (idle place)) [ inl z ↦ rw (z, n) rest | inr z ↦ rw z rest ])
    ]

-- The sessions that `evict_idle` drops are those that were last active more than `max_idle_secs`
-- before `now`, their sum as a u64; every other session stays in the table, at its place. (A key
-- stands once in a table.)
pub evict_idle-get {ℓ} :
    {A : Type ℓ} (max_idle_secs now : ℕ) (m : SessionManager A) (k : Text)
    → HasKeysOnce m.sessions
    → Dict.get k (evict_idle max_idle_secs now m).0.sessions ≡ (elim (Dict.get k m.sessions) [
      | none ↦ none
      | some place ↦ if is_idle max_idle_secs now m place then none else some place
    ])
unfolding evict_idle
evict_idle-get max_idle_secs now m k h =
    let idle = is_idle max_idle_secs now m in
    get-remove_all (idle_keys idle m.sessions) m.sessions k
    ∙ rw (idle_keys-get idle m.sessions k h) (elim (Option-cases (Dict.get k m.sessions)) [
      | inl e ↦ rw e refl
      | inr (place, e) ↦ rw e refl
    ])

if-none : (b : Bool) (o : Option ℕ) → o ≡ none → (if b then none else o) ≡ none
if-none true o h = refl
if-none false o h = h

remove-HasKeysOnce :
    (k : Text) (table : List (Text × ℕ)) → HasKeysOnce table → HasKeysOnce (Dict.remove k table)
remove-HasKeysOnce k [] h = tt
remove-HasKeysOnce k ((j, place) ∷ table) h =
    if-has HasKeysOnce (j =? k) (Dict.remove k table) ((j, place) ∷ Dict.remove k table)
      (remove-HasKeysOnce k table h.1)
      (λ n. (
        Dict.get-remove k j table ∙ if-none (k =? j) (Dict.get j table) h.0,
        remove-HasKeysOnce k table h.1,
      ))

remove_all-HasKeysOnce :
    (ks : List Text) (table : List (Text × ℕ))
    → HasKeysOnce table
    → HasKeysOnce (remove_all ks table)
remove_all-HasKeysOnce [] table h = h
remove_all-HasKeysOnce (k ∷ ks) table h =
    remove_all-HasKeysOnce ks (Dict.remove k table) (remove-HasKeysOnce k table h)

pub insert-HasKeysOnce :
    (k : Text) (place : ℕ) (table : List (Text × ℕ))
    → HasKeysOnce table
    → HasKeysOnce (Dict.insert k place table)
insert-HasKeysOnce k place [] h = (refl, tt)
insert-HasKeysOnce k place ((j, p) ∷ table) h = elim (Bool-cases (j =? k)) [
  | inl y ↦ rw y (ap (λ x. Dict.get x table) (sym (text_eq_sound j k y)) ∙ h.0, h.1)
  | inr n ↦ rw n (
    Dict.get-insert k j place table ∙ rw (=?_sym k j ∙ n) h.0,
    insert-HasKeysOnce k place table h.1,
  )
]

pub evict_idle-HasKeysOnce {ℓ} :
    {A : Type ℓ} (max_idle_secs now : ℕ) (m : SessionManager A)
    → HasKeysOnce m.sessions
    → HasKeysOnce (evict_idle max_idle_secs now m).0.sessions
unfolding evict_idle
evict_idle-HasKeysOnce max_idle_secs now m h =
    remove_all-HasKeysOnce (idle_keys (is_idle max_idle_secs now m) m.sessions) m.sessions h
