-- ===== src/Routing/Normal.antt =====
-- Normalized ids (src/agent_routing.rs, `normalize_id`).
use openpaw.Prelude.{
  ◌&&◌, ℕ, zero, suc, ◌+◌, ◌≤◌, ◌≡◌, refl, ◌≢◌, ◌⊎◌, inl, inr, Bool, true, false, [], ◌∷◌, Text,
  arith, All, length, Bool-cases, ◌==◌, ap,
}
use mathlib.Core.Path.{subst}
use openpaw.Routing.Keys.{
  to_ascii_lowercase, trim_start, trim_end, trim_matches, default_id, normalize_chars, or_default,
  normalize_id,
}

-- What the Unicode table says of ASCII: a dash is not alphanumeric, and the small letters are.
pub record IsTable (is_alphanumeric : ℕ → Bool) : Type 0 where
  pub dash : is_alphanumeric b'-' ≡ false
  pub letters : (c : ℕ) → b'a' ≤ c → c ≤ b'z' → is_alphanumeric c ≡ true

-- A character of an id: a dash, or alphanumeric and no capital of ASCII.
abbrev pub IsIdChar : (ℕ → Bool) → ℕ → Type 0
IsIdChar is_alphanumeric c = (c ≡ b'-') ⊎ ((is_alphanumeric c ≡ true) × (to_ascii_lowercase c ≡ c))

-- An id in normal form: 1 to 64 such characters, with no dash at either end.
pub record IsNormal (is_alphanumeric : ℕ → Bool) (t : Text) : Type 0 where
  pub chars : All (IsIdChar is_alphanumeric) t
  pub short : length t ≤ 64
  pub some_char : t ≢ []
  pub no_leading : trim_start t ≡ t
  pub no_trailing : trim_end t ≡ t

lower_idem : (c : ℕ) → to_ascii_lowercase (to_ascii_lowercase c) ≡ to_ascii_lowercase c
unfolding to_ascii_lowercase
lower_idem c = ground arith

length-trim_start : (s : Text) → length (trim_start s) ≤ length s
unfolding trim_start
length-trim_start [] = omega arith
length-trim_start (c ∷ s) = ground (arith, length-trim_start s)

length-trim_end : (s : Text) → length (trim_end s) ≤ length s
unfolding trim_end
length-trim_end [] = omega arith
length-trim_end (c ∷ s) = ground (arith, length-trim_end s)

trim_start_idem : (s : Text) → trim_start (trim_start s) ≡ trim_start s
unfolding trim_start
trim_start_idem [] = refl
trim_start_idem (c ∷ s) = ground (arith, trim_start_idem s)

length-zero : (s : Text) → length s ≡ 0 → s ≡ []
length-zero [] h = refl
length-zero (c ∷ s) h = absurd (omega arith)

trim_end_idem : (s : Text) → trim_end (trim_end s) ≡ trim_end s
unfolding trim_end
trim_end_idem [] = refl
trim_end_idem (c ∷ s) = ground (arith, trim_end_idem s, length-zero (trim_end s))

-- A text that does not begin with a dash keeps its beginning.
trim_start-trim_end : (s : Text) → trim_start s ≡ s → trim_start (trim_end s) ≡ trim_end s
unfolding trim_start trim_end
trim_start-trim_end [] h = refl
trim_start-trim_end (c ∷ s) h = elim (Bool-cases (c == b'-')) [
  | inl e ↦ absurd (omega (arith, length-trim_start s, ap {B = ℕ} length (h' e)))
  | inr e ↦ ground arith
]
  where
    h' : (c == b'-') ≡ true → trim_start s ≡ c ∷ s
    h' e = ground arith

module _ {κ} (P : ℕ → Type κ) where
  All-trim_start : (s : Text) → All P s → All P (trim_start s)
  unfolding trim_start
  All-trim_start [] h = h
  All-trim_start (c ∷ s) h = elim (Bool-cases (c == b'-')) [
    | inl e ↦ rw e (All-trim_start s h.1)
    | inr e ↦ rw e h
  ]

  All-trim_end : (s : Text) → All P s → All P (trim_end s)
  unfolding trim_end
  All-trim_end [] h = h
  All-trim_end (c ∷ s) h = elim (Bool-cases (c == b'-' && length (trim_end s) == 0)) [
    | inl e ↦ rw e tt
    | inr e ↦ rw e (h.0, All-trim_end s h.1)
  ]

module _ (is_alphanumeric : ℕ → Bool) (table : IsTable is_alphanumeric) where
  id_char-lower : (c : ℕ) → is_alphanumeric c ≡ true → is_alphanumeric (to_ascii_lowercase c) ≡ true
  unfolding to_ascii_lowercase
  id_char-lower c h = ground (arith, table.letters (c + 32))

  normalize_chars-chars :
      (room : ℕ) (s : Text)
      → All (IsIdChar is_alphanumeric) (normalize_chars is_alphanumeric room s)
  unfolding normalize_chars
  normalize_chars-chars zero s = tt
  normalize_chars-chars (suc room) [] = tt
  normalize_chars-chars (suc room) (c ∷ s) = (
    elim (Bool-cases (is_alphanumeric c)) [
      | inl e ↦ rw e (inr (id_char-lower c e, lower_idem c))
      | inr e ↦ rw e (inl refl)
    ],
    normalize_chars-chars room s,
  )

  normalize_chars-short :
      (room : ℕ) (s : Text) → length (normalize_chars is_alphanumeric room s) ≤ room
  unfolding normalize_chars
  normalize_chars-short zero s = omega arith
  normalize_chars-short (suc room) [] = omega arith
  normalize_chars-short (suc room) (c ∷ s) = omega (arith, normalize_chars-short room s)

  -- The loop leaves a text of id characters alone.
  normalize_chars_id :
      (room : ℕ) (s : Text)
      → length s ≤ room
      → All (IsIdChar is_alphanumeric) s
      → normalize_chars is_alphanumeric room s ≡ s
  unfolding normalize_chars
  normalize_chars_id zero [] le h = refl
  normalize_chars_id zero (c ∷ s) le h = absurd (omega arith)
  normalize_chars_id (suc room) [] le h = refl
  normalize_chars_id (suc room) (c ∷ s) le h =
      ground (arith, table.dash, normalize_chars_id room s (omega arith) h.1)

  small_letter : (c : ℕ) → b'a' ≤ c → c ≤ b'z' → IsIdChar is_alphanumeric c
  unfolding to_ascii_lowercase
  small_letter c lo hi = ground (arith, table.letters c)

  default-IsNormal : IsNormal is_alphanumeric default_id
  unfolding trim_start trim_end to_ascii_lowercase
  default-IsNormal = record {
    chars = (
      small_letter b'd' (omega arith) (omega arith),
      (
        small_letter b'e' (omega arith) (omega arith),
        (
          small_letter b'f' (omega arith) (omega arith),
          (
            small_letter b'a' (omega arith) (omega arith),
            (
              small_letter b'u' (omega arith) (omega arith),
              (
                small_letter b'l' (omega arith) (omega arith),
                (small_letter b't' (omega arith) (omega arith), tt),
              ),
            ),
          ),
        ),
      ),
    );
    short = omega arith;
    some_char = λ e. cc;
    no_leading = refl;
    no_trailing = refl;
  }

  trimmed-IsNormal :
      (s t : Text)
      → All (IsIdChar is_alphanumeric) s
      → length s ≤ 64
      → trim_matches s ≡ t
      → IsNormal is_alphanumeric (or_default t)
  unfolding or_default
  trimmed-IsNormal s [] chars short e = default-IsNormal
  trimmed-IsNormal s (c ∷ t) chars short e = record {
    chars =
        subst (All (IsIdChar is_alphanumeric)) e
          (All-trim_end _ (trim_start s) (All-trim_start _ s chars));
    short = omega (arith, length-trim_end (trim_start s), length-trim_start s, ap length e);
    some_char = λ e'. cc;
    no_leading =
        subst (λ u. trim_start u ≡ u) e (trim_start-trim_end (trim_start s) (trim_start_idem s));
    no_trailing = subst (λ u. trim_end u ≡ u) e (trim_end_idem (trim_start s));
  }

  -- Every normalized id has the normal form: 1 to 64 characters, each a dash or alphanumeric with no
  -- ASCII capital, and no dash at an end. (A dash is not alphanumeric and the small letters are.)
  pub normalize_id-IsNormal : (s : Text) → IsNormal is_alphanumeric (normalize_id is_alphanumeric s)
  unfolding normalize_id
  normalize_id-IsNormal [] = default-IsNormal
  normalize_id-IsNormal (c ∷ s) =
      trimmed-IsNormal (normalize_chars is_alphanumeric 64 (c ∷ s)) _
        (normalize_chars-chars 64 (c ∷ s)) (normalize_chars-short 64 (c ∷ s)) refl

  normal_fixed : (t : Text) → IsNormal is_alphanumeric t → normalize_id is_alphanumeric t ≡ t
  unfolding normalize_id or_default
  normal_fixed [] n = absurd (n.some_char refl)
  normal_fixed (c ∷ t) n =
      rw (normalize_chars_id 64 (c ∷ t) n.short n.chars, n.no_leading, n.no_trailing)

  -- Normalizing a second time changes nothing, and no text that is in the normal form is changed.
  pub normalize_id_idem :
      (s : Text)
      → (normalize_id is_alphanumeric (normalize_id is_alphanumeric s)
          ≡ normalize_id is_alphanumeric s)
        × ((t : Text) → IsNormal is_alphanumeric t → normalize_id is_alphanumeric t ≡ t)
  normalize_id_idem s =
      (normal_fixed (normalize_id is_alphanumeric s) (normalize_id-IsNormal s), normal_fixed)
