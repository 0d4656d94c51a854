-- ===== src/History/Serialize.antt =====
-- The turns that a summary is made of, as text: `serialize_for_summary` (src/agent/compaction.rs). A
-- slice at a byte inside a character panics, which is `none`.
use openpaw.Prelude.{
  ℕ, ◌-◌, Option, none, some, List, [], ◌∷◌, ◌++◌, String, Text, codes, if◌then◌else◌, ltb, leb,
}
use openpaw.History.{ToolCall, ChatMessage, is_role, len, utf8_len}
use openpaw.History.Prune.{slice_to}

-- `&s[n..]`.
unfoldable pub slice_from : ℕ → Text → Option Text
slice_from n [] = if leb n 0 then some [] else none
slice_from n (c ∷ s) =
    let rest = slice_from (n - utf8_len c) s in
    if leb n 0 then some (c ∷ s) else if leb (utf8_len c) n then rest else none

abbrev pub joined : Option Text → Option Text → Option Text
joined none back = none
joined (some front) none = none
joined (some front) (some back) = some (front ++ codes "\n...[truncated]...\n" ++ back)

-- `display`: the first 4000 and the last 1500 bytes of a content longer than 6000.
unfoldable pub display : Text → Option Text
unfolding slice_from slice_to len
display content =
    if ltb 6000 (len content)
    then joined (slice_to 4000 content) (slice_from (len content - 1500) content)
    else some content

abbrev pub with_dots : Option Text → Option Text
with_dots none = none
with_dots (some start) = some (start ++ codes "...")

-- `args`.
unfoldable pub shown_arguments : Text → Option Text
unfolding slice_to len
shown_arguments arguments =
    if ltb 1500 (len arguments) then with_dots (slice_to 1200 arguments) else some arguments

abbrev pub call_line : String → Option Text → Option Text
call_line name none = none
call_line name (some arguments) =
    some (codes "  " ++ codes name ++ codes "(" ++ arguments ++ codes ")")

-- Two texts, with a separator between them.
abbrev pub line_and : Text → Option Text → Option Text → Option Text
line_and separator none rest = none
line_and separator (some line) none = none
line_and separator (some line) (some rest) = some (line ++ separator ++ rest)

-- `tc_parts.join("\n")`.
unfoldable pub call_lines : List ToolCall → Option Text
unfolding shown_arguments
call_lines [] = some []
call_lines (tc ∷ []) = call_line tc.name (shown_arguments tc.arguments)
call_lines (tc ∷ next ∷ tcs) =
    line_and (codes "\n") (call_line tc.name (shown_arguments tc.arguments))
      (call_lines (next ∷ tcs))

abbrev pub with_calls : Option Text → Option Text → Option Text
with_calls none lines = none
with_calls (some shown) none = none
with_calls (some shown) (some lines) =
    some (shown ++ codes "\n[Tool calls:\n" ++ lines ++ codes "\n]")

abbrev pub labelled : Text → Option Text → Option Text
labelled label none = none
labelled label (some shown) = some (label ++ shown)

abbrev pub id_or_empty : Option String → String
id_or_empty none = ""
id_or_empty (some id) = id

abbrev pub assistant_part : ChatMessage → Option Text
assistant_part m = elim m.tool_calls [
  | none ↦ display m.content
  | some tcs ↦ with_calls (display m.content) (call_lines tcs)
]

module _ (to_uppercase : Text → Text) where
  unfoldable pub part : ChatMessage → Option Text
  unfolding display call_lines
  part m =
      if is_role "tool" m
      then labelled (codes "[TOOL RESULT " ++ codes (id_or_empty m.tool_call_id) ++ codes "]: ")
          (display m.content)
      else if is_role "assistant" m
      then labelled (codes "[ASSISTANT]: ") (assistant_part m)
      else labelled (codes "[" ++ to_uppercase (codes m.role) ++ codes "]: ") (display m.content)

  unfoldable pub serialize_for_summary : List ChatMessage → Option Text
  unfolding part
  serialize_for_summary [] = some []
  serialize_for_summary (m ∷ []) = part m
  serialize_for_summary (m ∷ next ∷ ms) =
      line_and (codes "\n\n") (part m) (serialize_for_summary (next ∷ ms))
