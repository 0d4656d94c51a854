-- ===== src/History/Compressed.antt =====
-- What the compaction of a history (src/agent/compaction.rs) returns, and when it cannot.
use openpaw.Prelude.{
  ℕ, ◌+◌, ◌-◌, ◌≤◌, ◌<◌, ◌≡◌, ◌↔◌, refl, zero, suc, max, true, none, List, [], ◌∷◌, ◌++◌, arith,
  all, length, drop, take, All, is_some, Text, some, Option, ltb, string_keyed, Bool-cases, inl,
  inr, dec_lt, leb,
}
use openpaw.History.{ChatMessage, is_role}
use openpaw.History.Cut.{align_boundary_forward, find_tail_cut_by_tokens}
use openpaw.History.Bounds.{find_tail_cut_by_tokens-past, find_tail_cut_by_tokens-range}
use openpaw.History.Ascii.{IsAsciiMessage, serialize_for_summary-some}
use openpaw.History.Pairs.{sanitize_tool_pairs}
use openpaw.History.Paired.{IsPaired}
use openpaw.History.Sanitized.{sanitize_tool_pairs-IsPaired}
use openpaw.History.Compress.{
  ContextCompressor, Answer, in_range, summarized, answered, generate_summary, compress_pruned,
  trim_history, first_system,
}

align_boundary_forward-all :
    (ms : List ChatMessage) (idx : ℕ)
    → idx ≤ length ms
    → (length ms ≤ align_boundary_forward ms idx) ↔ (all (is_role "tool") (drop idx ms) ≡ true)
unfolding align_boundary_forward
align_boundary_forward-all [] zero h = (λ _. refl, λ _. omega arith)
align_boundary_forward-all [] (suc idx) h = absurd (omega arith)
align_boundary_forward-all (m ∷ ms) zero h = ground (arith, align_boundary_forward-all ms zero)
align_boundary_forward-all (m ∷ ms) (suc idx) h = ground (arith, align_boundary_forward-all ms idx)

in_range-none {ℓ} :
    {A : Type ℓ} (start end n : ℕ) (nothing : A) (compressed : Option A)
    → start < end
    → is_some compressed ≡ true
    → (in_range start end n nothing compressed ≡ none) ↔ (n < end)
in_range-none start end n nothing none h s = ground (arith, s)
in_range-none start end n nothing (some compressed) h s = ground arith

summarized-some :
    (display_tokens start end : ℕ) (ms : List ChatMessage)
    (o : Option (ContextCompressor × Option Text))
    → is_some o ≡ true
    → is_some (summarized display_tokens ms start end o) ≡ true
summarized-some display_tokens start end ms none h = h
summarized-some display_tokens start end ms (some (c, summary)) h = refl

answered-some :
    (c : ContextCompressor) (now : ℕ) (answer : Text → Answer) (o : Option Text)
    → is_some o ≡ true
    → is_some (answered c now answer o) ≡ true
answered-some c now answer none h = h
answered-some c now answer (some content) h = refl

generate_summary-some :
    (to_uppercase : Text → Text) (c : ContextCompressor) (now : ℕ) (answer : Text → Answer)
    (turns : List ChatMessage)
    → All IsAsciiMessage turns
    → is_some (generate_summary to_uppercase c now answer turns) ≡ true
unfolding generate_summary
generate_summary-some to_uppercase c now answer turns h =
    elim (Bool-cases (ltb now c.summary_failure_cooldown_until)) [
      | inl y ↦ rw y refl
      | inr n ↦
          rw n (answered-some c now answer _ (serialize_for_summary-some to_uppercase turns h))
    ]

All-drop {ℓ κ} : {A : Type ℓ} (P : A → Type κ) (n : ℕ) (xs : List A) → All P xs → All P (drop n xs)
All-drop P zero xs h = h
All-drop P (suc n) [] h = h
All-drop P (suc n) (x ∷ xs) h = All-drop P n xs h.1

All-take {ℓ κ} : {A : Type ℓ} (P : A → Type κ) (n : ℕ) (xs : List A) → All P xs → All P (take n xs)
All-take P zero xs h = tt
All-take P (suc n) [] h = tt
All-take P (suc n) (x ∷ xs) h = (h.0, All-take P n xs h.1)

-- Of messages in ASCII, the compaction of the pruned messages panics exactly when every message
-- behind the protected head is a tool result. (A text with other characters may also be cut inside
-- one of them.)
pub compress_pruned-panic :
    (to_uppercase : Text → Text) (c : ContextCompressor) (now : ℕ) (answer : Text → Answer)
    (display_tokens : ℕ) (ms : List ChatMessage)
    → c.protect_first_n ≤ length ms
    → All IsAsciiMessage ms
    → (compress_pruned to_uppercase c now answer display_tokens ms ≡ none)
      ↔ (all (is_role "tool") (drop c.protect_first_n ms) ≡ true)
unfolding compress_pruned
compress_pruned-panic to_uppercase c now answer display_tokens ms h ascii =
    let start = align_boundary_forward ms c.protect_first_n in
    let cut = find_tail_cut_by_tokens c.tail_token_budget ms start in
    let past = find_tail_cut_by_tokens-past c.tail_token_budget ms start in
    let all_tools = align_boundary_forward-all ms c.protect_first_n h in
    let turns = take (cut - start) (drop start ms) in
    let made = generate_summary to_uppercase c now answer turns in
    let whole = summarized-some display_tokens start cut ms made (
      generate_summary-some to_uppercase c now answer turns (
        All-take IsAsciiMessage (cut - start) (drop start ms)
          (All-drop IsAsciiMessage start ms ascii))) in
    let ends =
      in_range-none start cut (length ms) (c, sanitize_tool_pairs ms)
        (summarized display_tokens ms start cut made) past whole in
    elim (dec_lt start (length ms)) [
      | yes p ↦
          let range = find_tail_cut_by_tokens-range c.tail_token_budget ms start p in
          (
            λ e. absurd (omega (arith, ends.0 e, range.1)),
            λ a. absurd (omega (arith, p, all_tools.1 a)),
          )
      | no p ↦ (λ _. all_tools.0 (omega arith), λ _. ends.1 (omega (arith, past)))
    ]

-- What `trim_history` returns has a result for each call and a call for each result, if the history
-- had.
pub trim_history-IsPaired :
    (history : List ChatMessage) (max : ℕ) → IsPaired history → IsPaired (trim_history history max)
unfolding trim_history
trim_history-IsPaired history max h =
    let system = first_system history in
    elim (Bool-cases (leb (length history) (max + length system))) [
      | inl y ↦ rw y h
      | inr n ↦ rw n (elim (Bool-cases (leb (length history - length system) max)) [
        | inl y ↦ rw y h
        | inr m ↦ rw m (
            sanitize_tool_pairs-IsPaired
              (system ++ drop (length system + (length history - length system - max)) history))
      ])
    ]
