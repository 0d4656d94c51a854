-- ===== src/History/Bounds.antt =====
-- Where `find_tail_cut_by_tokens` (src/agent/compaction.rs) cuts.
use openpaw.Prelude.{
  ℕ, ◌+◌, ◌-◌, ◌≤◌, ◌<◌, ◌≡◌, zero, suc, min, max, Option, none, some, List, [], ◌∷◌, arith, length,
  drop, any, refl, sym, ap, ◌∙◌, true, false, Bool-cases, Option-cases, inl, inr,
}
use openpaw.History.{ChatMessage, is_role}
use openpaw.History.Cut.{
  raw_cut, keep_user, back_over_tools, role_at, align_boundary_backward, last_user,
  find_last_user_message_idx, ensure_last_user_message_in_tail, find_tail_cut_by_tokens,
}

back_over_tools-le : (ms : List ChatMessage) (i : ℕ) → back_over_tools ms i ≤ i
back_over_tools-le ms zero = omega arith
back_over_tools-le ms (suc i) = elim (Bool-cases (role_at "tool" ms (suc i))) [
  | inl y ↦ rw y (omega (arith, back_over_tools-le ms i))
  | inr n ↦ rw n (omega arith)
]

align_boundary_backward-le :
    (ms : List ChatMessage) (idx : ℕ) → align_boundary_backward ms idx ≤ idx
unfolding align_boundary_backward
align_boundary_backward-le ms idx = ground (arith, back_over_tools-le ms (idx - 1))

last_user-range :
    (i : ℕ) (ms : List ChatMessage) (u : ℕ)
    → last_user i ms ≡ some u
    → (i ≤ u) × (u < i + length ms)
last_user-range i [] u h = cc
last_user-range i (m ∷ ms) u h = elim (Option-cases (last_user (suc i) ms)) [
  | inl e ↦ ground arith
  | inr (later, e) ↦ ground (arith, last_user-range (suc i) ms u)
]

keep_user-le : (o : Option ℕ) (cut head_end : ℕ) → keep_user o cut head_end ≤ max cut (head_end + 1)
keep_user-le none cut head_end = omega arith
keep_user-le (some u) cut head_end = ground arith

raw_cut-le :
    (budget : ℕ) (ms : List ChatMessage) (head_end : ℕ)
    → head_end < length ms
    → raw_cut budget ms head_end ≤ length ms - min 3 (length ms - (head_end + 1))
raw_cut-le budget ms head_end h = ground arith

pub find_tail_cut_by_tokens-past :
    (budget : ℕ) (ms : List ChatMessage) (head_end : ℕ)
    → head_end < find_tail_cut_by_tokens budget ms head_end
unfolding find_tail_cut_by_tokens
find_tail_cut_by_tokens-past budget ms head_end = omega arith

-- For a head that ends within the messages, the cut is behind the head, so that something is
-- compacted, and leaves the last three messages in the tail (fewer only if the head is so close).
pub find_tail_cut_by_tokens-range :
    (budget : ℕ) (ms : List ChatMessage) (head_end : ℕ)
    → head_end < length ms
    → let cut = find_tail_cut_by_tokens budget ms head_end in
      (head_end < cut) × (cut ≤ length ms - min 3 (length ms - (head_end + 1)))
unfolding find_tail_cut_by_tokens ensure_last_user_message_in_tail
find_tail_cut_by_tokens-range budget ms head_end h =
    let aligned = align_boundary_backward ms (raw_cut budget ms head_end) in
    let le = raw_cut-le budget ms head_end h in
    let le' = align_boundary_backward-le ms (raw_cut budget ms head_end) in
    let le'' = keep_user-le (find_last_user_message_idx ms head_end) aligned head_end in
    (omega arith, omega (arith, le, le', le''))

last_user-none :
    (i : ℕ) (ms : List ChatMessage) → any (is_role "user") ms ≡ false → last_user i ms ≡ none
last_user-none i [] h = refl
last_user-none i (m ∷ ms) h = ground (arith, h, last_user-none (suc i) ms)

-- The message at `u` is one of the user, and the last of them.
abbrev pub IsLastUser : List ChatMessage → ℕ → Type 0
IsLastUser ms u = (role_at "user" ms u ≡ true) × (any (is_role "user") (drop (suc u) ms) ≡ false)

last_user-IsLastUser :
    (i : ℕ) (ms : List ChatMessage) (u : ℕ) → IsLastUser ms u → last_user i ms ≡ some (i + u)
last_user-IsLastUser i [] u h = ground (arith, h.0)
last_user-IsLastUser i (m ∷ ms) zero h =
    let same : i + 0 ≡ i = omega arith in rw (same, last_user-none (suc i) ms h.1) (rw h.0 refl)
last_user-IsLastUser i (m ∷ ms) (suc u) h =
    let same : suc i + u ≡ i + suc u = omega arith in
    rw (last_user-IsLastUser (suc i) ms u h) (ap some same)

plus_zero : (n : ℕ) → n ≡ 0 + n
plus_zero n = omega arith

last_user-drop :
    (i h : ℕ) (ms : List ChatMessage) (u : ℕ)
    → h ≤ u
    → IsLastUser ms u
    → last_user (i + h) (drop h ms) ≡ some (i + u)
last_user-drop i zero ms u le last =
    let same : i + 0 ≡ i = omega arith in rw same (last_user-IsLastUser i ms u last)
last_user-drop i (suc h) [] u le last = ground (arith, last.0)
last_user-drop i (suc h) (m ∷ ms) zero le last = absurd (omega arith)
last_user-drop i (suc h) (m ∷ ms) (suc u) le last =
    let shift : i + suc h ≡ suc i + h = omega arith in
    let back : suc i + u ≡ i + suc u = omega arith in
    rw (shift, sym back) (last_user-drop (suc i) h ms u (omega arith) last)

-- The last message of the user stays in the tail, with all that follows it, if it stands behind the
-- first message behind the head.
pub find_tail_cut_by_tokens-user :
    (budget : ℕ) (ms : List ChatMessage) (head_end u : ℕ)
    → role_at "user" ms u ≡ true
    → any (is_role "user") (drop (suc u) ms) ≡ false
    → head_end < u
    → find_tail_cut_by_tokens budget ms head_end ≤ u
unfolding find_tail_cut_by_tokens ensure_last_user_message_in_tail find_last_user_message_idx
find_tail_cut_by_tokens-user budget ms head_end u role last lt =
    let found : last_user head_end (drop head_end ms) ≡ some u =
      ap (λ x. last_user x (drop head_end ms)) (plus_zero head_end)
      ∙ last_user-drop 0 head_end ms u (omega arith) (role, last)
      ∙ ap some (sym (plus_zero u)) in
    rw found ground arith
