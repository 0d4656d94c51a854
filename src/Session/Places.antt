-- ===== src/Session/Places.antt =====
-- Every turn of src/session.rs runs on a session of its own key.
use openpaw.Prelude.{
  ℕ, ◌≤◌, ◌≡◌, ap, ◌∙◌, sym, refl, Bool, true, false, Option, none, some, List, [], ◌∷◌, Text,
  text_keyed, nat_keyed, ◌=?◌, ◌==◌, arith, Option-cases, Bool-cases, inl, inr, text_eq_sound,
}
use openpaw.Dict as Dict
use openpaw.Session.{
  Session, SessionManager, get_or_create, begin_turn, end_turn, evict_idle, new, new_session,
  create, touch, remove_all, idle_keys, is_idle, set_active, after_turn,
}
use openpaw.Session.Idle.{get-remove_all}
use openpaw.Session.Turns.{
  Call, begin, finish, evict, step, run, get_or_create-fresh, get_or_create-known,
}

remove_all-within :
    (ks : List Text) (k : Text) (p : ℕ) (table : List (Text × ℕ))
    → Dict.get k (remove_all ks table) ≡ some p
    → Dict.get k table ≡ some p
remove_all-within ks k p table e = ground (arith, sym (get-remove_all ks table k) ∙ e)

module _ {ℓ} {A : Type ℓ} where
  abbrev pub key_of : Option (Session A) → Option Text
  key_of none = none
  key_of (some session) = some session.session_key

  -- The key of the session at a place.
  abbrev pub key_at : ℕ → SessionManager A → Option Text
  key_at place m = key_of (Dict.get place m.store)

  -- The table leads each key to a session of that key, and new places are behind all others.
  abbrev pub IsOwned : SessionManager A → Type ℓ
  IsOwned m =
      ((k : Text) (p : ℕ) → Dict.get k m.sessions ≡ some p → key_at p m ≡ some k)
      × ((p : ℕ) → m.places ≤ p → Dict.get p m.store ≡ none)

  -- A write that keeps the key of a session.
  key_of-map :
      (f : Session A → Session A) (o : Option (Session A))
      → ((s : Session A) → (f s).session_key ≡ s.session_key)
      → key_of (Dict.map_option f o) ≡ key_of o
  key_of-map f none h = refl
  key_of-map f (some s) h = ap some (h s)

  key_of-update :
      (f : Session A → Session A) (place p : ℕ) (store : List (ℕ × Session A))
      → ((s : Session A) → (f s).session_key ≡ s.session_key)
      → key_of (Dict.get p (Dict.update place f store)) ≡ key_of (Dict.get p store)
  key_of-update f place p store h =
      rw (Dict.get-update place p f store) (elim (Bool-cases (place == p)) [
        | inl y ↦ rw y (key_of-map f (Dict.get p store) h)
        | inr n ↦ rw n refl
      ])

  none-update :
      (f : Session A → Session A) (place p : ℕ) (store : List (ℕ × Session A))
      → Dict.get p store ≡ none
      → Dict.get p (Dict.update place f store) ≡ none
  none-update f place p store h = ground (arith, Dict.get-update place p f store, h)

  -- The write of a session: the table, the keys of the sessions and the places stay.
  written-IsOwned :
      (f : Session A → Session A) (place : ℕ) (m : SessionManager A)
      → ((s : Session A) → (f s).session_key ≡ s.session_key)
      → IsOwned m
      → IsOwned (record m { store = Dict.update place f m.store })
  written-IsOwned f place m h (own, fresh) = (
    (λ k p e. key_of-update f place p m.store h ∙ own k p e),
    (λ p le. none-update f place p m.store (fresh p le)),
  )

  key_of-new :
      (s : Session A) (place p : ℕ) (store : List (ℕ × Session A))
      → place ≡ p
      → key_of (Dict.get p ((place, s) ∷ store)) ≡ some s.session_key
  key_of-new s place p store same =
      let yes : (place == p) ≡ true = ground (arith, same) in rw yes refl

  -- A new session leaves the keys of the others: its place was free.
  key_of-cons :
      (s : Session A) (place p : ℕ) (k : Text) (store : List (ℕ × Session A))
      → Dict.get place store ≡ none
      → key_of (Dict.get p store) ≡ some k
      → key_of (Dict.get p ((place, s) ∷ store)) ≡ some k
  key_of-cons s place p k store free h = elim (Bool-cases (place == p)) [
    | inl y ↦
        let same : place ≡ p = ground (arith, y) in
        let gone : Dict.get p store ≡ none = ap (λ x. Dict.get x store) (sym same) ∙ free in
        ground (arith, ap key_of (sym gone) ∙ h)
    | inr n ↦ rw n h
  ]

  create-IsOwned :
      (k : Text) (agent : A) (now : ℕ) (m : SessionManager A)
      → IsOwned m
      → IsOwned (create k agent now m).0
  unfolding new_session
  create-IsOwned k agent now m (own, fresh) = (
    (λ j p e. elim (Bool-cases (k =? j)) [
      | inl y ↦
          let same : m.places ≡ p =
            ground (arith, sym (Dict.get-insert k j m.places m.sessions) ∙ e, y) in
          let named : k ≡ j = text_eq_sound k j y in
          key_of-new (new_session agent k now) m.places p m.store same ∙ ap some named
      | inr n ↦
          let old : Dict.get j m.sessions ≡ some p =
            ground (arith, sym (Dict.get-insert k j m.places m.sessions) ∙ e, n) in
          key_of-cons (new_session agent k now) m.places p j m.store (fresh m.places (omega arith))
            (own j p old)
    ]),
    (λ p le. ground (arith, fresh p, le)),
  )

  -- What a turn begins on: an owned table, at a place of the turn's key; the keys of the others stay.
  abbrev pub HasBegun : Text → SessionManager A → SessionManager A × ℕ → Type ℓ
  HasBegun k m (m', place) =
      IsOwned m'
      × (key_at place m' ≡ some k)
      × ((p : ℕ) (j : Text) → key_at p m ≡ some j → key_at p m' ≡ some j)

  pub get_or_create-HasBegun :
      (k : Text) (agent : A) (now : ℕ) (m : SessionManager A)
      → IsOwned m
      → HasBegun k m (get_or_create k agent now m)
  unfolding new_session
  get_or_create-HasBegun k agent now m h = elim (Option-cases (Dict.get k m.sessions)) [
    | inl e ↦
        let made = create-IsOwned k agent now m h in
        rw (get_or_create-fresh k agent now m e) (
          made,
          key_of-new (new_session agent k now) m.places m.places m.store refl,
          (λ p j.
              key_of-cons (new_session agent k now) m.places p j m.store
                (h.1 m.places (omega arith))),
        )
    | inr (place, e) ↦
        let write : (p : ℕ) → key_at p (touch place now m) ≡ key_at p m =
          λ p. key_of-update (set_active now) place p m.store (λ s. refl) in
        rw (get_or_create-known k agent now place m e) (
          written-IsOwned (set_active now) place m (λ s. refl) h,
          write place ∙ h.0 k place e,
          (λ p j i. write p ∙ i),
        )
  ]

  pub begin_turn-HasBegun :
      (k : Text) (agent : A) (now now' : ℕ) (m : SessionManager A)
      → IsOwned m
      → HasBegun k m (begin_turn k agent now now' m)
  unfolding begin_turn
  begin_turn-HasBegun k agent now now' m h =
      let (m', place) = get_or_create k agent now m in
      let b = get_or_create-HasBegun k agent now m h in
      let write : (p : ℕ) → key_at p (touch place now' m') ≡ key_at p m' =
        λ p. key_of-update (set_active now') place p m'.store (λ s. refl) in
      (
        written-IsOwned (set_active now') place m' (λ s. refl) b.0,
        write place ∙ b.1,
        (λ p j i. write p ∙ b.2 p j i),
      )

  -- A call keeps the table owned and the key of every session.
  abbrev Keeps : SessionManager A → SessionManager A → Type ℓ
  Keeps m m' = IsOwned m' × ((p : ℕ) (j : Text) → key_at p m ≡ some j → key_at p m' ≡ some j)

  end_turn-Keeps :
      (place : ℕ) (agent : A) (answered : Bool) (now : ℕ) (m : SessionManager A)
      → IsOwned m
      → Keeps m (end_turn place agent answered now m)
  unfolding end_turn
  end_turn-Keeps place agent true now m h = (
    written-IsOwned (after_turn agent now) place m (λ s. refl) h,
    (λ p j i. key_of-update (after_turn agent now) place p m.store (λ s. refl) ∙ i),
  )
  end_turn-Keeps place agent false now m h = (
    written-IsOwned (λ s. record s { agent = agent }) place m (λ s. refl) h,
    (λ p j i. key_of-update (λ s. record s { agent = agent }) place p m.store (λ s. refl) ∙ i),
  )

  evict_idle-Keeps :
      (max_idle_secs now : ℕ) (m : SessionManager A)
      → IsOwned m
      → Keeps m (evict_idle max_idle_secs now m).0
  unfolding evict_idle
  evict_idle-Keeps max_idle_secs now m (own, fresh) =
      let gone = idle_keys (is_idle max_idle_secs now m) m.sessions in
      (((λ k p e. own k p (remove_all-within gone k p m.sessions e)), fresh), (λ p j i. i))

  step-Keeps : (c : Call A) (m : SessionManager A) → IsOwned m → Keeps m (step c m)
  step-Keeps (begin k agent now now') m h =
      let b = begin_turn-HasBegun k agent now now' m h in (b.0, b.2)
  step-Keeps (finish place agent answered now) m h = end_turn-Keeps place agent answered now m h
  step-Keeps (evict max_idle_secs now) m h = evict_idle-Keeps max_idle_secs now m h

  run-Keeps : (cs : List (Call A)) (m : SessionManager A) → IsOwned m → Keeps m (run cs m)
  run-Keeps [] m h = (h, (λ p j i. i))
  run-Keeps (c ∷ cs) m h =
      let first = step-Keeps c m h in
      let rest = run-Keeps cs (step c m) first.0 in (rest.0, (λ p j i. rest.1 p j (first.1 p j i)))

  new-IsOwned : IsOwned (new {A = A})
  unfolding new
  new-IsOwned = ((λ k p e. ground (arith, e)), (λ p le. refl))

  pub run-IsOwned : (cs : List (Call A)) → IsOwned (run cs (new {A = A}))
  run-IsOwned cs = (run-Keeps cs (new {A = A}) new-IsOwned).0

-- A turn runs on a session of its own key, whatever turns began and ended and whatever idle sessions
-- were dropped before it, and whatever comes while it runs: no message reaches the agent of another
-- conversation.
pub begin_turn-key_at {ℓ} :
    {A : Type ℓ} (before during : List (Call A)) (k : Text) (agent : A) (now now' : ℕ)
    → let (m, place) = begin_turn k agent now now' (run before new) in
      key_at place (run during m) ≡ some k
begin_turn-key_at {A = A} before during k agent now now' =
    let (m, place) = begin_turn k agent now now' (run before new) in
    let b = begin_turn-HasBegun k agent now now' (run before (new {A = A})) (run-IsOwned before) in
    (run-Keeps during m b.0).1 place k b.1
