-- ===== src/History/Ascii.antt =====
-- A text in ASCII is never cut inside a character (src/agent/compaction.rs, `serialize_for_summary`).
use openpaw.Prelude.{
  ℕ, ◌-◌, ◌≤◌, ◌<◌, ◌≡◌, refl, true, Option, none, some, List, [], ◌∷◌, Text, arith, All, is_some,
  Bool-cases, inl, inr, ltb, leb, String, codes, ◌++◌,
}
use openpaw.History.{ToolCall, ChatMessage, is_role, calls_of, len, utf8_len}
use openpaw.History.Prune.{slice_to}
use openpaw.History.Serialize.{
  slice_from, joined, display, with_dots, shown_arguments, call_line, line_and, call_lines,
  with_calls, labelled, assistant_part, part, serialize_for_summary, id_or_empty,
}

abbrev pub IsAscii : Text → Type 0
IsAscii = All (λ c. c < 128)

abbrev pub IsAsciiMessage : ChatMessage → Type 0
IsAsciiMessage m = IsAscii m.content × All (λ tc. IsAscii (ToolCall.arguments tc)) (calls_of m)

with_head-some :
    (c : ℕ) (o : Option Text)
    → is_some o ≡ true
    → is_some (elim o [ none ↦ none | some t ↦ some (c ∷ t) ]) ≡ true
with_head-some c none h = h
with_head-some c (some t) h = refl

slice_to-some : (n : ℕ) (s : Text) → IsAscii s → n ≤ len s → is_some (slice_to n s) ≡ true
unfolding slice_to len
slice_to-some n [] a h = ground (arith, h)
slice_to-some n (c ∷ s) a h =
    let one : utf8_len c ≡ 1 = ground (arith, a.0) in
    elim (Bool-cases (leb n 0)) [
      | inl y ↦ rw y refl
      | inr m ↦
          let rest = slice_to-some (n - 1) s a.1 (ground (arith, h, one, m)) in
          let fits : leb 1 n ≡ true = ground (arith, m) in
          rw (m, one, fits) (with_head-some c (slice_to (n - 1) s) rest)
    ]

slice_from-some : (n : ℕ) (s : Text) → IsAscii s → n ≤ len s → is_some (slice_from n s) ≡ true
unfolding slice_from len
slice_from-some n [] a h = ground (arith, h)
slice_from-some n (c ∷ s) a h =
    let one : utf8_len c ≡ 1 = ground (arith, a.0) in
    elim (Bool-cases (leb n 0)) [
      | inl y ↦ rw y refl
      | inr m ↦
          let rest = slice_from-some (n - 1) s a.1 (ground (arith, h, one, m)) in
          let fits : leb 1 n ≡ true = ground (arith, m) in rw (m, one, fits) rest
    ]

joined-some :
    (front back : Option Text)
    → is_some front ≡ true
    → is_some back ≡ true
    → is_some (joined front back) ≡ true
joined-some none back h k = h
joined-some (some front) none h k = k
joined-some (some front) (some back) h k = refl

display-some : (s : Text) → IsAscii s → is_some (display s) ≡ true
unfolding display
display-some s a = elim (Bool-cases (ltb 6000 (len s))) [
  | inl y ↦
      let long : 6000 < len s = ground (arith, y) in
      rw y (
        joined-some (slice_to 4000 s) (slice_from (len s - 1500) s)
          (slice_to-some 4000 s a (omega (arith, long)))
          (slice_from-some (len s - 1500) s a (omega arith)))
  | inr n ↦ rw n refl
]

call_line-some :
    (name : String) (o : Option Text) → is_some o ≡ true → is_some (call_line name o) ≡ true
call_line-some name none h = h
call_line-some name (some arguments) h = refl

with_dots-some : (o : Option Text) → is_some o ≡ true → is_some (with_dots o) ≡ true
with_dots-some none h = h
with_dots-some (some start) h = refl

shown_arguments-some : (s : Text) → IsAscii s → is_some (shown_arguments s) ≡ true
unfolding shown_arguments
shown_arguments-some s a = elim (Bool-cases (ltb 1500 (len s))) [
  | inl y ↦
      let long : 1500 < len s = ground (arith, y) in
      rw y (with_dots-some (slice_to 1200 s) (slice_to-some 1200 s a (omega (arith, long))))
  | inr n ↦ rw n refl
]

line_and-some :
    (separator : Text) (line rest : Option Text)
    → is_some line ≡ true
    → is_some rest ≡ true
    → is_some (line_and separator line rest) ≡ true
line_and-some separator none rest h k = h
line_and-some separator (some line) none h k = k
line_and-some separator (some line) (some rest) h k = refl

call_lines-some :
    (tcs : List ToolCall)
    → All (λ tc. IsAscii (ToolCall.arguments tc)) tcs
    → is_some (call_lines tcs) ≡ true
unfolding call_lines
call_lines-some [] a = refl
call_lines-some (tc ∷ []) a = call_line-some tc.name _ (shown_arguments-some tc.arguments a.0)
call_lines-some (tc ∷ next ∷ tcs) a =
    line_and-some _ _ (call_lines (next ∷ tcs))
      (call_line-some tc.name _ (shown_arguments-some tc.arguments a.0))
      (call_lines-some (next ∷ tcs) a.1)

with_calls-some :
    (shown lines : Option Text)
    → is_some shown ≡ true
    → is_some lines ≡ true
    → is_some (with_calls shown lines) ≡ true
with_calls-some none lines h k = h
with_calls-some (some shown) none h k = k
with_calls-some (some shown) (some lines) h k = refl

labelled-some :
    (label : Text) (o : Option Text) → is_some o ≡ true → is_some (labelled label o) ≡ true
labelled-some label none h = h
labelled-some label (some shown) h = refl

assistant_part-some :
    (content : Text) (calls : Option (List ToolCall))
    → IsAscii content
    → All (λ tc. IsAscii (ToolCall.arguments tc)) (elim calls [ none ↦ [] | some tcs ↦ tcs ])
    → is_some (elim calls [
      | none ↦ display content
      | some tcs ↦ with_calls (display content) (call_lines tcs)
    ])
      ≡ true
assistant_part-some content none a b = display-some content a
assistant_part-some content (some tcs) a b =
    with_calls-some (display content) (call_lines tcs) (display-some content a)
      (call_lines-some tcs b)

part-some :
    (to_uppercase : Text → Text) (m : ChatMessage)
    → IsAsciiMessage m
    → is_some (part to_uppercase m) ≡ true
unfolding part
part-some to_uppercase m a =
    let shown = display-some m.content a.0 in
    elim (Bool-cases (is_role "tool" m)) [
      | inl y ↦ rw y (
          labelled-some (codes "[TOOL RESULT " ++ codes (id_or_empty m.tool_call_id) ++ codes "]: ")
            (display m.content) shown)
      | inr n ↦ elim (Bool-cases (is_role "assistant" m)) [
        | inl y ↦
            rw (n, y)
              (labelled-some (codes "[ASSISTANT]: ") (assistant_part m)
                (assistant_part-some m.content m.tool_calls a.0 a.1))
        | inr k ↦
            rw (n, k)
              (labelled-some (codes "[" ++ to_uppercase (codes m.role) ++ codes "]: ")
                (display m.content) shown)
      ]
    ]

pub serialize_for_summary-some :
    (to_uppercase : Text → Text) (ms : List ChatMessage)
    → All IsAsciiMessage ms
    → is_some (serialize_for_summary to_uppercase ms) ≡ true
unfolding serialize_for_summary
serialize_for_summary-some to_uppercase [] a = refl
serialize_for_summary-some to_uppercase (m ∷ []) a = part-some to_uppercase m a.0
serialize_for_summary-some to_uppercase (m ∷ next ∷ ms) a =
    line_and-some _ (part to_uppercase m) (serialize_for_summary to_uppercase (next ∷ ms))
      (part-some to_uppercase m a.0) (serialize_for_summary-some to_uppercase (next ∷ ms) a.1)
