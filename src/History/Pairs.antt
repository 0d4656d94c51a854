-- ===== src/History/Pairs.antt =====
-- Tool calls and their results: `sanitize_tool_pairs` (src/agent/compaction.rs).
use openpaw.Prelude.{
  Bool, true, false, not, none, some, List, [], ◌∷◌, ◌++◌, String, codes, ◌=?◌, string_keyed,
  if◌then◌else◌, any, retain,
}
use openpaw.History.{ToolCall, ChatMessage, is_role, calls_of}

-- `contains` of a set or a list of ids.
abbrev pub has : String → List String → Bool
has id ids = any (λ x. x =? id) ids

abbrev pub is_empty : List String → Bool
is_empty [] = true
is_empty (id ∷ ids) = false

-- The ids of calls that are not empty.
abbrev pub ids_of : List ToolCall → List String
ids_of [] = []
ids_of (tc ∷ tcs) = if tc.id =? "" then ids_of tcs else tc.id ∷ ids_of tcs

-- `surviving_call_ids`.
abbrev pub call_ids : List ChatMessage → List String
call_ids [] = []
call_ids (m ∷ ms) =
    let rest = call_ids ms in if is_role "assistant" m then ids_of (calls_of m) ++ rest else rest

abbrev pub result_id : ChatMessage → List String
result_id m = elim m.tool_call_id [ none ↦ [] | some cid ↦ cid ∷ [] ]

-- `result_call_ids`.
abbrev pub result_ids : List ChatMessage → List String
result_ids [] = []
result_ids (m ∷ ms) =
    let rest = result_ids ms in if is_role "tool" m then result_id m ++ rest else rest

-- The filter of the results: `orphaned` holds the ids that no call has.
abbrev pub stays : List String → ChatMessage → Bool
stays orphaned m =
    if is_role "tool" m
    then elim m.tool_call_id [ none ↦ true | some cid ↦ not (has cid orphaned) ]
    else true

abbrev pub stub : ToolCall → ChatMessage
stub tc = record {
  role = "tool";
  content = codes "[Result from earlier conversation — see context summary above]";
  name = some tc.name;
  tool_calls = none;
  tool_call_id = some tc.id;
  content_parts = none;
  thought_signature = none;
}

abbrev pub stubs : List String → List ToolCall → List ChatMessage
stubs missing [] = []
stubs missing (tc ∷ tcs) =
    let rest = stubs missing tcs in if has tc.id missing then stub tc ∷ rest else rest

-- The loop that adds a result for each call that has none.
abbrev pub patch : List String → List ChatMessage → List ChatMessage
patch missing [] = []
patch missing (m ∷ ms) =
    let rest = patch missing ms in
    m ∷ (if is_role "assistant" m then stubs missing (calls_of m) ++ rest else rest)

unfoldable pub sanitize_tool_pairs : List ChatMessage → List ChatMessage
sanitize_tool_pairs messages =
    let surviving = call_ids messages in
    let results = result_ids messages in
    let orphaned = retain (λ cid. not (has cid surviving)) results in
    let cleaned = retain (stays orphaned) messages in
    let missing = retain (λ id. not (has id results)) surviving in
    if is_empty missing then cleaned else patch missing cleaned
