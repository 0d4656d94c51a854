-- ===== src/Lru/Count.antt =====
-- How often keys stand in the map and in the order (src/memory/engines/lru.rs).
use openpaw.Prelude.{
  ℕ, suc, ◌+◌, ◌≤◌, ◌≡◌, refl, true, false, none, some, List, [], ◌∷◌, String, string_keyed, ◌=?◌,
  count, length, arith, if◌then◌else◌, ◌==◌, Option-cases, inl, inr,
}
use openpaw.Dict
use openpaw.Lru.{Entry, take_out, pop_back}

abbrev pub places : String → List String → ℕ
places k = count (λ x. x =? k)

abbrev pub key_places : String → List (String × Entry) → ℕ
key_places k = count (λ e. e.0 =? k)

pub contains-key_places :
    (k : String) (m : List (String × Entry))
    → Dict.contains_key k m ≡ (if key_places k m == 0 then false else true)
contains-key_places k [] = ground arith
contains-key_places k ((j, e) ∷ m) = ground (arith, contains-key_places k m)

pub places-take_out :
    (k key : String) (ks : List String)
    → 1 ≤ places key ks
    → places k ks ≡ (if key =? k then 1 else 0) + places k (take_out key ks)
places-take_out k key [] h = absurd (ground arith)
places-take_out k key (x ∷ ks) h = ground (
  arith,
  places-take_out k key ks,
  string_keyed.beq_iff x key,
  string_keyed.beq_iff key k,
  string_keyed.beq_iff x k,
)

pub key_places-update :
    (k key : String) (f : Entry → Entry) (m : List (String × Entry))
    → key_places k (Dict.update key f m) ≡ key_places k m
key_places-update k key f [] = refl
key_places-update k key f ((j, e) ∷ m) = ground (arith, key_places-update k key f m)

pub length-update :
    (key : String) (f : Entry → Entry) (m : List (String × Entry))
    → length (Dict.update key f m) ≡ length m
length-update key f [] = refl
length-update key f ((j, e) ∷ m) = ground (arith, length-update key f m)

pub key_places-remove :
    (k key : String) (m : List (String × Entry))
    → key_places k (Dict.remove key m) ≡ (if key =? k then 0 else key_places k m)
key_places-remove k key [] = ground arith
key_places-remove k key ((j, e) ∷ m) = ground (
  arith,
  key_places-remove k key m,
  string_keyed.beq_iff j key,
  string_keyed.beq_iff key k,
  string_keyed.beq_iff j k,
)

pub length-remove :
    (key : String) (m : List (String × Entry))
    → length m ≡ length (Dict.remove key m) + key_places key m
length-remove key [] = refl
length-remove key ((j, e) ∷ m) = ground (arith, length-remove key m)

pub key_places-insert :
    (k key : String) (e : Entry) (m : List (String × Entry))
    → key_places key m ≡ 0
    → key_places k (Dict.insert key e m) ≡ (if key =? k then 1 else 0) + key_places k m
key_places-insert k key e [] h = ground arith
key_places-insert k key e ((j, f) ∷ m) h = ground (arith, key_places-insert k key e m)

pub length-insert :
    (key : String) (e : Entry) (m : List (String × Entry))
    → key_places key m ≡ 0
    → length (Dict.insert key e m) ≡ suc (length m)
length-insert key e [] h = refl
length-insert key e ((j, f) ∷ m) h = ground (arith, length-insert key e m)

pub pop_back-none : (ks : List String) → pop_back ks ≡ none → ks ≡ []
pop_back-none [] h = refl
pop_back-none (x ∷ ks) h = absurd (ground arith)

-- The last key counts once.
pub places-pop_back :
    (k old : String) (ks rest : List String)
    → pop_back ks ≡ some (rest, old)
    → places k ks ≡ (if old =? k then 1 else 0) + places k rest
places-pop_back k old [] rest h = absurd (ground arith)
places-pop_back k old (x ∷ ks) rest h = elim (Option-cases (pop_back ks)) [
  | inl e ↦ ground (arith, pop_back-none ks e)
  | inr ((rest', last), e) ↦ ground (arith, places-pop_back k last ks rest' e)
]
