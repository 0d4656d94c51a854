-- ===== src/NetGuard/Allowed.antt =====
-- Which hosts `host_matches_allowlist` (src/net_security.rs) lets through.
use openpaw.Prelude.{
  ℕ, ◌-◌, ◌≤◌, ◌<◌, ◌≡◌, ◌⊎◌, refl, sym, ap, ◌∙◌, zero, suc, Bool, true, false, Option, none, some,
  List, [], ◌∷◌, ◌++◌, Text, codes, text_eq, text_eq_sound, arith, length, drop, take, Bool-cases,
  inl, inr,
}
use openpaw.Scan.{ends_with, strip_prefix}
use openpaw.NetGuard.{
  byte_at, matches_wildcard, matches_subdomain, matches_pattern, or_rest, matches_any,
  host_matches_allowlist,
}

-- A host is a domain, or a name, a dot and the domain.
abbrev pub IsUnder : Text → Text → Type 0
IsUnder domain host = (host ≡ domain) ⊎ ((name : Text) × (host ≡ name ++ b'.' ∷ domain))

-- A host is under the pattern, or under the domain of a pattern "*.domain".
abbrev pub Covers : Text → Text → Type 0
Covers host pattern =
    IsUnder pattern host
    ⊎ ((domain : Text) × (strip_prefix (codes "*.") pattern ≡ some domain) × IsUnder domain host)

abbrev pub AnyCovers : Text → List Text → Type 0
AnyCovers host [] = ⊥
AnyCovers host (pattern ∷ rest) = Covers host pattern ⊎ AnyCovers host rest

-- A text is what stands before a byte, the byte, and what stands behind it.
cut_at : (s : Text) (i : ℕ) → i < length s → s ≡ take i s ++ byte_at s i ∷ drop (suc i) s
cut_at [] i h = absurd (omega arith)
cut_at (c ∷ s) zero h = refl
cut_at (c ∷ s) (suc i) h = ap (◌∷◌ c) (cut_at s i (omega arith))

under_at :
    (s domain : Text) (n : ℕ)
    → 0 < n
    → n ≤ length s
    → drop n s ≡ domain
    → byte_at s (n - 1) ≡ b'.'
    → (name : Text) × (s ≡ name ++ b'.' ∷ domain)
under_at s domain zero pos le d e = absurd (omega arith)
under_at s domain (suc n) pos le d e =
    let back : n ≡ suc n - 1 = omega arith in
    let dot : byte_at s n ≡ b'.' = ap (byte_at s) back ∙ e in
    (take n s, cut_at s n (omega arith) ∙ ap (λ x. take n s ++ x) (rw (d, dot) refl))

ends_with-drop :
    (p s : Text) → ends_with p s ≡ true → (length p ≤ length s) × (drop (length s - length p) s ≡ p)
ends_with-drop [] [] h = (omega arith, refl)
ends_with-drop (b ∷ p) [] h = absurd (ground arith)
ends_with-drop p (c ∷ s) h = elim (Bool-cases (text_eq p (c ∷ s))) [
  | inl y ↦
      let e = text_eq_sound p (c ∷ s) y in
      let none_left : length (c ∷ s) - length p ≡ 0 = rw e (omega arith) in
      (rw e (omega arith), rw none_left (sym e))
  | inr n ↦
      let (le, d) = ends_with-drop p s (ground arith) in
      let one_more : length (c ∷ s) - length p ≡ suc (length s - length p) = omega (arith, le) in
      (omega (arith, le), rw one_more d)
]

-- The two tests that look for a dot before a domain at the end of the host.
wildcard-IsUnder :
    (host : Text) (o : Option Text)
    → matches_wildcard host o ≡ true
    → (domain : Text) × (o ≡ some domain) × IsUnder domain host
wildcard-IsUnder host none h = absurd (ground arith)
wildcard-IsUnder host (some domain) h =
    let (le, d) = ends_with-drop domain host (ground arith) in
    (
      domain,
      refl,
      inr (
          under_at host domain (length host - length domain) (ground arith) (omega arith) d
            (ground arith)),
    )

subdomain-IsUnder :
    (host pattern : Text) → matches_subdomain host pattern ≡ some true → IsUnder pattern host
subdomain-IsUnder host pattern h =
    let offset = length host - length pattern in
    inr (
      under_at host pattern offset (ground arith) (omega arith)
        (text_eq_sound (drop offset host) pattern (ground arith)) (ground arith))

matches_pattern-Covers :
    (host pattern : Text) → matches_pattern host pattern ≡ some true → Covers host pattern
matches_pattern-Covers host pattern h = elim (Bool-cases (text_eq host pattern)) [
  | inl y ↦ inl (inl (text_eq_sound host pattern y))
  | inr n ↦ elim (Bool-cases (matches_wildcard host (strip_prefix (codes "*.") pattern))) [
    | inl y ↦ inr (wildcard-IsUnder host (strip_prefix (codes "*.") pattern) y)
    | inr m ↦ inl (subdomain-IsUnder host pattern (ground arith))
  ]
]

or_rest-cases :
    (o rest : Option Bool) → or_rest o rest ≡ some true → (o ≡ some true) ⊎ (rest ≡ some true)
or_rest-cases none rest h = absurd (ground arith)
or_rest-cases (some true) rest h = inl refl
or_rest-cases (some false) rest h = inr h

matches_any-covers :
    (host : Text) (allowed : List Text)
    → matches_any host allowed ≡ some true
    → AnyCovers host allowed
matches_any-covers host [] h = absurd (ground arith)
matches_any-covers host (pattern ∷ rest) h =
    elim (or_rest-cases (matches_pattern host pattern) (matches_any host rest) h) [
      | inl e ↦ inl (matches_pattern-Covers host pattern e)
      | inr e ↦ inr (matches_any-covers host rest e)
    ]

-- A list of allowed hosts that is not empty lets a host through only if it is one of them, or ends in
-- a dot and one of them, or does so with the domain of a pattern "*.domain".
pub host_matches_allowlist-Covers :
    (host pattern : Text) (allowed : List Text)
    → host_matches_allowlist host (pattern ∷ allowed) ≡ some true
    → AnyCovers host (pattern ∷ allowed)
unfolding host_matches_allowlist
host_matches_allowlist-Covers host pattern allowed h = matches_any-covers host (pattern ∷ allowed) h
