-- ===== src/History/Prune.antt =====
-- The pruning of old tool results: `prune_old_tool_results` and `summarize_tool_result`
-- (src/agent/compaction.rs). A slice at a byte inside a character panics, which is `none`.
use openpaw.Prelude.{
  ℕ, ◌+◌, ◌-◌, ◌*◌, ◌/◌, zero, suc, min, max, Bool, not, ◌&&◌, ◌||◌, Option, none, some, List, [],
  ◌∷◌, ◌++◌, String, Text, codes, text_eq, text_keyed, string_keyed, ◌=?◌, if◌then◌else◌, ltb, leb,
  length, any,
}
use openpaw.Scan.{show, line_count, starts_with}
use openpaw.Dict as Dict
use openpaw.History.{ToolCall, ChatMessage, is_role, calls_of, len, utf8_len}
use openpaw.History.Cut.{message_tokens, reverse_onto}

-- `&s[..n]`.
unfoldable pub slice_to : ℕ → Text → Option Text
slice_to n [] = if leb n 0 then some [] else none
slice_to n (c ∷ s) =
    let rest = slice_to (n - utf8_len c) s in
    if leb n 0
    then some []
    else if leb (utf8_len c) n
    then elim rest [ none ↦ none | some t ↦ some (c ∷ t) ]
    else none

-- The name and the arguments of each call, by its id; a later call of the same id replaces an
-- earlier one.
abbrev add_calls : List ToolCall → List (String × (String × Text)) → List (String × (String × Text))
add_calls [] index = index
add_calls (tc ∷ tcs) index = add_calls tcs (Dict.insert tc.id (tc.name, tc.arguments) index)

abbrev pub index_calls :
    List ChatMessage → List (String × (String × Text)) → List (String × (String × Text))
index_calls [] index = index
index_calls (m ∷ ms) index =
    index_calls ms (if is_role "assistant" m then add_calls (calls_of m) index else index)

-- The walk backward over the messages: how many of them it reads. `taken` of them have been, so that
-- `n - i` is one more.
abbrev pub budget_walk : ℕ → ℕ → List ChatMessage → ℕ → ℕ → ℕ
budget_walk limit min_protect [] taken accumulated = taken
budget_walk limit min_protect (m ∷ back) taken accumulated =
    let rest = budget_walk limit min_protect back (suc taken) (accumulated + message_tokens m) in
    if ltb limit (accumulated + message_tokens m) && leb min_protect (suc taken)
    then suc taken
    else rest

-- `prune_boundary`: the messages before it may be pruned.
unfoldable pub prune_boundary : ℕ → ℕ → List ChatMessage → ℕ
prune_boundary protect_tail_tokens protect_tail_count ms =
    let n = length ms in
    let min_protect = min protect_tail_count (n - 1) in
    let read = budget_walk (protect_tail_tokens * 3 / 2) min_protect (reverse_onto ms []) 0 0 in
    max (n - read) (n - min_protect)

abbrev pub duplicate : Text
duplicate = codes "[Duplicate tool output — same content as a more recent call]"

-- The first pass, from the last message back: with the hashes of the contents that it has seen and
-- the number of results that it replaced. `short_hash` is the start of the MD5 of a text.
module _ (short_hash : Text → Text) where
  unfoldable pub dedupe : List ChatMessage → List ChatMessage × List Text × ℕ
  dedupe [] = ([], [], 0)
  dedupe (m ∷ ms) =
      let (ms', seen, pruned) = dedupe ms in
      if not (is_role "tool" m) || ltb (len m.content) 200
      then (m ∷ ms', seen, pruned)
      else if any (text_eq (short_hash m.content)) seen
      then (record m { content = duplicate } ∷ ms', seen, pruned + 1)
      else (m ∷ ms', short_hash m.content ∷ seen, pruned)

abbrev named : List String → String → Bool
named names name = any (λ x. name =? x) names

abbrev terminal_line : Text → ℕ → Option Text
terminal_line cmd lines =
    some (codes "[terminal] ran `" ++ cmd ++ codes "` -> " ++ show lines ++ codes " lines output")

unfoldable pub summarize_tool_result : String → Text → Text → Option Text
summarize_tool_result tool_name tool_args tool_content =
    let size = show (len tool_content) in
    if named ("terminal" ∷ "shell" ∷ []) tool_name
    then (if ltb 80 (len tool_args)
        then elim (slice_to 77 tool_args) [
          | none ↦ none
          | some start ↦ terminal_line (start ++ codes "...") (line_count tool_content)
        ]
        else terminal_line tool_args (line_count tool_content))
    else some (
        if named ("read_file" ∷ "file_read" ∷ []) tool_name
        then codes "[read_file] read file (" ++ size ++ codes " chars)"
        else if named ("write_file" ∷ "file_write" ∷ []) tool_name
        then codes "[write_file] wrote file (" ++ size ++ codes " chars)"
        else if named ("search_files" ∷ "workspace_search" ∷ []) tool_name
        then codes "[search_files] search -> " ++ size ++ codes " chars result"
        else if named ("web_search" ∷ []) tool_name
        then codes "[web_search] query result (" ++ size ++ codes " chars)"
        else if named ("delegate_task" ∷ "delegate" ∷ []) tool_name
        then codes "[delegate_task] subagent result (" ++ size ++ codes " chars)"
        else if named ("execute_code" ∷ []) tool_name
        then codes "[execute_code] ran code ("
          ++ show (line_count tool_content)
          ++ codes " lines output)"
        else codes "[" ++ codes tool_name ++ codes "] tool result (" ++ size ++ codes " chars)")

-- The second pass leaves this message as it is.
abbrev pub is_kept : ChatMessage → Bool
is_kept m =
    not (is_role "tool" m)
    || starts_with (codes "[Duplicate tool output") m.content
    || leb (len m.content) 200

abbrev pub tool_of : List (String × (String × Text)) → ChatMessage → String × Text
tool_of index m = elim (Dict.get (elim m.tool_call_id [ none ↦ "" | some id ↦ id ]) index) [
  | none ↦ ("unknown", [])
  | some tool ↦ tool
]

abbrev pub with_summary : ChatMessage → Option Text → Option (ChatMessage × ℕ)
with_summary m none = none
with_summary m (some summary) = some (record m { content = summary }, 1)

abbrev pub prune_one : List (String × (String × Text)) → ChatMessage → Option (ChatMessage × ℕ)
prune_one index m =
    let (tool_name, tool_args) = tool_of index m in
    if is_kept m
    then some (m, 0)
    else with_summary m (summarize_tool_result tool_name tool_args m.content)

abbrev pub prepend :
    Option (ChatMessage × ℕ) → Option (List ChatMessage × ℕ) → Option (List ChatMessage × ℕ)
prepend none rest = none
prepend (some (m, k)) none = none
prepend (some (m, k)) (some (ms, pruned)) = some (m ∷ ms, k + pruned)

-- The second pass, over the messages before the boundary.
unfoldable pub summarize_old :
    List (String × (String × Text)) → ℕ → List ChatMessage → Option (List ChatMessage × ℕ)
summarize_old index zero ms = some (ms, 0)
summarize_old index (suc boundary) [] = some ([], 0)
summarize_old index (suc boundary) (m ∷ ms) =
    prepend (prune_one index m) (summarize_old index boundary ms)

abbrev pub add_pruned : ℕ → Option (List ChatMessage × ℕ) → Option (List ChatMessage × ℕ)
add_pruned k none = none
add_pruned k (some (ms, pruned)) = some (ms, k + pruned)

-- The messages and how many of them were pruned.
unfoldable pub prune_old_tool_results :
    (Text → Text) → ℕ → ℕ → List ChatMessage → Option (List ChatMessage × ℕ)
unfolding prune_boundary dedupe summarize_old
prune_old_tool_results short_hash protect_tail_tokens protect_tail_count ms =
    let index = index_calls ms [] in
    let boundary = prune_boundary protect_tail_tokens protect_tail_count ms in
    let (ms', seen, pruned) = dedupe short_hash ms in
    add_pruned pruned (summarize_old index (min boundary (length ms)) ms')
