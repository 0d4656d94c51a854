-- ===== src/Events/Patterns.antt =====
-- What the patterns of watchers match (src/events.rs).
use openpaw.Prelude.{
  ◌≡◌, refl, sym, ap, ◌∙◌, true, [], ◌∷◌, ◌++◌, Text, codes, text_eq, text_eq_sound, ℕ, arith,
  Bool-cases, inl, inr, ◌⊎◌, ◌↔◌, false, ◌==◌, =?_refl, text_keyed,
}
use openpaw.Scan.{starts_with, ends_with}
use openpaw.Events.{pattern_matches, drop_last}

-- A text with a character at its end.
ends_with-snoc : (q : Text) → ends_with (codes "*") (q ++ codes "*") ≡ true
ends_with-snoc [] = refl
ends_with-snoc (c ∷ q) = ground (arith, ends_with-snoc q)

drop_last-snoc : (q : Text) (c : ℕ) → drop_last (q ++ c ∷ []) ≡ q
drop_last-snoc [] c = refl
drop_last-snoc (d ∷ []) c = refl
drop_last-snoc (d ∷ b ∷ q) c = ap (◌∷◌ d) (drop_last-snoc (b ∷ q) c)

-- Three characters are more than two.
longer :
    (c d : ℕ) (q : Text)
    → ends_with (codes ".*") (c ∷ d ∷ q ++ codes "*") ≡ true
    → ends_with (codes ".*") (d ∷ q ++ codes "*") ≡ true
longer c d [] h = ground arith
longer c d (b ∷ q) h = ground arith

-- A pattern that ends in ".*", without its two last characters and with a dot again.
dotted : (q : Text) → ends_with (codes ".*") (q ++ codes "*") ≡ true → drop_last q ++ codes "." ≡ q
dotted [] h = absurd (ground arith)
dotted (c ∷ []) h = let same : c ≡ b'.' = ground arith in rw same refl
dotted (c ∷ d ∷ q) h = ap (◌∷◌ c) (dotted (d ∷ q) (longer c d q h))

-- A pattern "prefix*" matches the events that begin with the prefix, whatever the prefix: the rules
-- for "*" and for ".*" are cases of it.
pub pattern_matches-prefix :
    (prefix event : Text) → pattern_matches (prefix ++ codes "*") event ≡ starts_with prefix event
unfolding pattern_matches
pattern_matches-prefix prefix event =
    let pattern = prefix ++ codes "*" in
    elim (Bool-cases (text_eq pattern (codes "*"))) [
      | inl y ↦
          let empty : prefix ≡ [] =
            sym (drop_last-snoc prefix b'*') ∙ ap drop_last (text_eq_sound pattern (codes "*") y) in
          rw (y, empty) refl
      | inr n ↦ elim (Bool-cases (ends_with (codes ".*") pattern)) [
        | inl y ↦ rw (n, y, drop_last-snoc prefix b'*', dotted prefix y) refl
        | inr m ↦ rw (n, m, ends_with-snoc prefix, drop_last-snoc prefix b'*') refl
      ]
    ]

-- What a pattern stands for: itself, or with a star at its end every text that begins like it.
abbrev pub Says : Text → Text → Type 0
Says pattern event =
    (pattern ≡ event)
    ⊎ ((prefix : Text) × (rest : Text) × (pattern ≡ prefix ++ codes "*") × (event ≡ prefix ++ rest))

starts_with-append : (prefix rest : Text) → starts_with prefix (prefix ++ rest) ≡ true
starts_with-append [] rest = refl
starts_with-append (c ∷ prefix) rest = ground (arith, starts_with-append prefix rest)

starts_with-rest :
    (prefix event : Text)
    → starts_with prefix event ≡ true
    → (rest : Text) × (event ≡ prefix ++ rest)
starts_with-rest [] event h = (event, refl)
starts_with-rest (c ∷ prefix) [] h = absurd (ground arith)
starts_with-rest (c ∷ prefix) (d ∷ event) h =
    let (rest, e) = starts_with-rest prefix event (ground (arith, h)) in
    let same : c ≡ d = ground (arith, h) in (rest, rw same (ap (◌∷◌ d) e))

-- Whether a text ends in a star, and what stands before it.
split_star : (p : Text) → ((q : Text) × (p ≡ q ++ codes "*")) ⊎ (ends_with (codes "*") p ≡ false)
split_star [] = inr refl
split_star (c ∷ []) = elim (Bool-cases (c == b'*')) [
  | inl y ↦ let same : c ≡ b'*' = ground (arith, y) in inl ([], rw same refl)
  | inr n ↦ inr (ground (arith, n))
]
split_star (c ∷ d ∷ s) = elim (split_star (d ∷ s)) [
  | inl (q, e) ↦ inl (c ∷ q, ap (◌∷◌ c) e)
  | inr n ↦ inr (ground (arith, n))
]

dot_star : (p : Text) → ends_with (codes "*") p ≡ false → ends_with (codes ".*") p ≡ false
dot_star [] h = refl
dot_star (c ∷ []) h = ground arith
dot_star (c ∷ d ∷ []) h = ground (arith, h)
dot_star (c ∷ d ∷ b ∷ s) h = ground (arith, h, dot_star (d ∷ b ∷ s))

-- A pattern without a star at its end is compared.
pattern_matches-exact :
    (pattern event : Text)
    → ends_with (codes "*") pattern ≡ false
    → pattern_matches pattern event ≡ text_eq pattern event
unfolding pattern_matches
pattern_matches-exact pattern event h = elim (Bool-cases (text_eq pattern (codes "*"))) [
  | inl y ↦
      let star : true ≡ false =
        ap (ends_with (codes "*")) (sym (text_eq_sound pattern (codes "*") y)) ∙ h in
      ground (arith, star)
  | inr n ↦ rw (n, dot_star pattern h, h) refl
]

-- The tests of `pattern_matches` are those of the description.
pub pattern_matches-Says :
    (pattern event : Text) → (pattern_matches pattern event ≡ true) ↔ Says pattern event
pattern_matches-Says pattern event = elim (split_star pattern) [
  | inl (q, e) ↦ (
    (λ m.
        let (rest, r) =
          starts_with-rest q event (
            sym (pattern_matches-prefix q event) ∙ ap (λ x. pattern_matches x event) (sym e) ∙ m) in
        inr (q, rest, e, r)),
    (λ s. elim s [
      | inl same ↦
          ap (λ x. pattern_matches x event) e
          ∙ pattern_matches-prefix q event
          ∙ ap (starts_with q) (sym same ∙ e)
          ∙ starts_with-append q (codes "*")
      | inr (q', rest, e', r) ↦
          ap (λ x. pattern_matches x event) e'
          ∙ pattern_matches-prefix q' event
          ∙ ap (starts_with q') r
          ∙ starts_with-append q' rest
    ]),
  )
  | inr n ↦ (
    (λ m. inl (text_eq_sound pattern event (sym (pattern_matches-exact pattern event n) ∙ m))),
    (λ s. elim s [
      | inl same ↦ pattern_matches-exact pattern event n ∙ rw same (=?_refl event)
      | inr (q', rest, e', r) ↦
          ap (λ x. pattern_matches x event) e'
          ∙ pattern_matches-prefix q' event
          ∙ ap (starts_with q') r
          ∙ starts_with-append q' rest
    ]),
  )
]
