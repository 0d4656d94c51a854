-- ===== src/Plan/Times.antt =====
-- How often a name stands in a list, for the proofs about plans (src/plan.rs).
use openpaw.Prelude.{
  ℕ, suc, ◌+◌, ◌≤◌, ◌≡◌, refl, true, false, List, [], ◌∷◌, ◌++◌, String, string_keyed, ◌=?◌, count,
  count-append, length, arith, ◌==◌, if◌then◌else◌,
}
use openpaw.Plan.{contains}

abbrev pub times : String → List String → ℕ
times x = count (λ y. y =? x)

pub times-append : (x : String) (xs ys : List String) → times x (xs ++ ys) ≡ times x xs + times x ys
times-append x xs ys = count-append (λ y. y =? x) xs ys

pub contains-times :
    (x : String) (xs : List String) → contains x xs ≡ (if times x xs == 0 then false else true)
contains-times x [] = ground arith
contains-times x (y ∷ xs) = ground (arith, contains-times x xs)

pub times_self : (x : String) (xs : List String) → times x (x ∷ xs) ≡ suc (times x xs)
times_self x xs = ground (arith, string_keyed.beq_iff x x)

-- Takes the first occurrence of a name out.
abbrev erase : String → List String → List String
erase x [] = []
erase x (y ∷ ys) = if y =? x then ys else y ∷ erase x ys

times-erase :
    (x p : String) (ys : List String)
    → 1 ≤ times p ys
    → times x ys ≡ (if p =? x then 1 else 0) + times x (erase p ys)
times-erase x p [] h = absurd (ground arith)
times-erase x p (y ∷ ys) h = ground (
  arith,
  times-erase x p ys,
  string_keyed.beq_iff y p,
  string_keyed.beq_iff p x,
  string_keyed.beq_iff y x,
)

length-erase :
    (p : String) (ys : List String) → 1 ≤ times p ys → length ys ≡ suc (length (erase p ys))
length-erase p [] h = absurd (ground arith)
length-erase p (y ∷ ys) h = ground (arith, length-erase p ys)

times_within :
    (p : String) (xs ys : List String)
    → ((x : String) → times x (p ∷ xs) ≤ times x ys)
    → (1 ≤ times p ys) × ((x : String) → times x xs ≤ times x (erase p ys))
times_within p xs ys h =
    let room : 1 ≤ times p ys = omega (arith, times_self p xs, h p) in
    (room, λ x. omega (arith, times-erase x p ys room, h x))

-- A list that holds nothing more often than another is not longer.
pub times_le-length :
    (xs ys : List String) → ((x : String) → times x xs ≤ times x ys) → length xs ≤ length ys
times_le-length [] ys h = omega arith
times_le-length (p ∷ xs) ys h =
    let (room, within) = times_within p xs ys h in
    omega (arith, length-erase p ys room, times_le-length xs (erase p ys) within)

-- If it is as long, it holds the same.
pub times_le-times :
    (xs ys : List String) (x : String)
    → ((z : String) → times z xs ≤ times z ys)
    → length ys ≤ length xs
    → times x xs ≡ times x ys
times_le-times [] [] x h l = refl
times_le-times [] (y ∷ ys) x h l = absurd (omega arith)
times_le-times (p ∷ xs) ys x h l =
    let (room, within) = times_within p xs ys h in
    omega (
      arith,
      times-erase x p ys room,
      times_le-times xs (erase p ys) x within (omega (arith, length-erase p ys room)),
    )
