-- ===== src/History/Cut.antt =====
-- Where a history is cut for its compaction: `find_tail_cut_by_tokens` and the functions it calls
-- (src/agent/compaction.rs).
use openpaw.Prelude.{
  ℕ, ◌+◌, ◌-◌, ◌*◌, ◌/◌, zero, suc, min, max, Bool, false, ◌&&◌, ◌||◌, Option, none, some, List, [],
  ◌∷◌, String, if◌then◌else◌, ltb, leb, ◌==◌, length, drop, is_some,
}
use openpaw.History.{ToolCall, ChatMessage, is_role, calls_of, len}

abbrev pub get_elem? {ℓ} : {A : Type ℓ} → List A → ℕ → Option A
get_elem? [] i = none
get_elem? (x ∷ xs) zero = some x
get_elem? (x ∷ xs) (suc i) = get_elem? xs i

abbrev pub reverse_onto {ℓ} : {A : Type ℓ} → List A → List A → List A
reverse_onto [] acc = acc
reverse_onto (x ∷ xs) acc = reverse_onto xs (x ∷ acc)

-- `role == ...` of the message at an index.
abbrev pub role_at : String → List ChatMessage → ℕ → Bool
role_at role ms i = elim (get_elem? ms i) [ none ↦ false | some m ↦ is_role role m ]

abbrev pub argument_tokens : List ToolCall → ℕ
argument_tokens [] = 0
argument_tokens (tc ∷ tcs) = len tc.arguments / 4 + argument_tokens tcs

-- `msg_tokens`.
abbrev pub message_tokens : ChatMessage → ℕ
message_tokens m = len m.content / 4 + 10 + argument_tokens (calls_of m)

-- The walk over the messages from the last one back: how many of them it takes. `taken` of them
-- have been, so that `n - i` is one more.
abbrev pub tail_walk : ℕ → ℕ → List ChatMessage → ℕ → ℕ → ℕ
tail_walk ceiling min_tail [] taken accumulated = taken
tail_walk ceiling min_tail (m ∷ back) taken accumulated =
    let rest = tail_walk ceiling min_tail back (suc taken) (accumulated + message_tokens m) in
    if ltb ceiling (accumulated + message_tokens m) && leb min_tail (suc taken) then taken else rest

unfoldable pub align_boundary_forward : List ChatMessage → ℕ → ℕ
align_boundary_forward [] idx = idx
align_boundary_forward (m ∷ ms) zero =
    let rest = align_boundary_forward ms zero in if is_role "tool" m then suc rest else zero
align_boundary_forward (m ∷ ms) (suc idx) = suc (align_boundary_forward ms idx)

-- The loop of `align_boundary_backward`.
abbrev pub back_over_tools : List ChatMessage → ℕ → ℕ
back_over_tools ms zero = zero
back_over_tools ms (suc check) =
    let rest = back_over_tools ms check in if role_at "tool" ms (suc check) then rest else suc check

abbrev pub calls_at : List ChatMessage → ℕ → Bool
calls_at ms i = elim (get_elem? ms i) [
  | none ↦ false
  | some m ↦ is_role "assistant" m && is_some m.tool_calls
]

unfoldable pub align_boundary_backward : List ChatMessage → ℕ → ℕ
align_boundary_backward ms idx =
    let check = back_over_tools ms (idx - 1) in
    if (idx == 0) || leb (length ms) idx then idx else if calls_at ms check then check else idx

-- The last user message of a list whose first message has the index `i`.
abbrev pub last_user : ℕ → List ChatMessage → Option ℕ
last_user i [] = none
last_user i (m ∷ ms) = elim (last_user (suc i) ms) [
  | some later ↦ some later
  | none ↦ if is_role "user" m then some i else none
]

unfoldable pub find_last_user_message_idx : List ChatMessage → ℕ → Option ℕ
find_last_user_message_idx ms head_end = last_user head_end (drop head_end ms)

abbrev pub keep_user : Option ℕ → ℕ → ℕ → ℕ
keep_user none cut_idx head_end = cut_idx
keep_user (some last_user_idx) cut_idx head_end =
    if ltb last_user_idx cut_idx then max last_user_idx (head_end + 1) else cut_idx

unfoldable pub ensure_last_user_message_in_tail : List ChatMessage → ℕ → ℕ → ℕ
ensure_last_user_message_in_tail ms cut_idx head_end =
    keep_user (find_last_user_message_idx ms head_end) cut_idx head_end

-- The cut by tokens, before it is aligned.
abbrev pub raw_cut : ℕ → List ChatMessage → ℕ → ℕ
raw_cut tail_token_budget ms head_end =
    let n = length ms in
    let min_tail = min 3 (n - (head_end + 1)) in
    let cut_idx =
      n - tail_walk (tail_token_budget * 3 / 2) min_tail (reverse_onto (drop head_end ms) []) 0 0 in
    let fallback_cut = n - min_tail in
    let cut_idx' = min cut_idx fallback_cut in
    if leb cut_idx' head_end then max fallback_cut (head_end + 1) else cut_idx'

unfoldable pub find_tail_cut_by_tokens : ℕ → List ChatMessage → ℕ → ℕ
unfolding ensure_last_user_message_in_tail
find_tail_cut_by_tokens tail_token_budget ms head_end =
    max
      (ensure_last_user_message_in_tail ms
        (align_boundary_backward ms (raw_cut tail_token_budget ms head_end)) head_end)
      (head_end + 1)
