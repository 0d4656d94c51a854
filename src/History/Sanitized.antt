-- ===== src/History/Sanitized.antt =====
-- What `sanitize_tool_pairs` (src/agent/compaction.rs) makes of a list of messages.
use openpaw.Prelude.{
  true, false, not, ◌&&◌, ◌≡◌, refl, sym, ap, ◌∙◌, List, [], ◌∷◌, String, arith, string_keyed,
  retain, Bool-cases, Option-cases, inl, inr, =?_refl,
}
use openpaw.History.{ToolCall, ChatMessage, is_role, calls_of}
use openpaw.History.Pairs.{has, is_empty, ids_of, call_ids, result_ids, stays, sanitize_tool_pairs}
use openpaw.History.Paired.{
  IsPaired, has-append, has-retain, call_ids-retain, result_ids-retain, call_ids-patch,
  result_ids-patch,
}

-- No call has the empty id.
ids_of-named : (tcs : List ToolCall) → has "" (ids_of tcs) ≡ false
ids_of-named [] = refl
ids_of-named (tc ∷ tcs) = ground (arith, ids_of-named tcs)

call_ids-named : (ms : List ChatMessage) → has "" (call_ids ms) ≡ false
call_ids-named [] = refl
call_ids-named (m ∷ ms) = ground (
  arith,
  call_ids-named ms,
  ids_of-named (calls_of m),
  has-append "" (ids_of (calls_of m)) (call_ids ms),
)

-- The lists of `sanitize_tool_pairs`.
abbrev orphans : List ChatMessage → List String
orphans ms = retain (λ cid. not (has cid (call_ids ms))) (result_ids ms)

abbrev lacking : List ChatMessage → List String
lacking ms = retain (λ id. not (has id (result_ids ms))) (call_ids ms)

cleaned-results :
    (ms : List ChatMessage) (id : String)
    → has id (result_ids (retain (stays (orphans ms)) ms))
      ≡ (has id (result_ids ms) && has id (call_ids ms))
cleaned-results ms id = ground (
  arith,
  result_ids-retain (orphans ms) id ms,
  has-retain (λ cid. not (has cid (call_ids ms))) id (result_ids ms),
)

lacking-named : (ms : List ChatMessage) → has "" (lacking ms) ≡ false
lacking-named ms =
    ground
      (arith, has-retain (λ x. not (has x (result_ids ms))) "" (call_ids ms), call_ids-named ms)

empty-has : (ids : List String) (id : String) → is_empty ids ≡ true → has id ids ≡ false
empty-has [] id h = refl
empty-has (x ∷ ids) id h = cc

-- After `sanitize_tool_pairs` the ids of the tool calls and those of the tool results are the same:
-- no result is left without its call, and no call (of an id that is not empty) without a result.
pub sanitize_tool_pairs-IsPaired : (ms : List ChatMessage) → IsPaired (sanitize_tool_pairs ms)
unfolding sanitize_tool_pairs
sanitize_tool_pairs-IsPaired ms id =
    let cleaned = retain (stays (orphans ms)) ms in
    let lacks = has-retain (λ x. not (has x (result_ids ms))) id (call_ids ms) in
    let calls = call_ids-retain (orphans ms) ms in
    elim (Bool-cases (is_empty (lacking ms))) [
      | inl y ↦
          rw (y, calls) ground (arith, cleaned-results ms id, lacks, empty-has (lacking ms) id y)
      | inr n ↦ rw n (
          result_ids-patch (lacking ms) id cleaned (lacking-named ms)
          ∙ rw calls ground (arith, cleaned-results ms id, lacks)
          ∙ sym (ap (has id) (call_ids-patch (lacking ms) cleaned ∙ calls)))
    ]

stays-all :
    (orphaned : List String) (m : ChatMessage)
    → ((id : String) → has id orphaned ≡ false)
    → stays orphaned m ≡ true
stays-all orphaned m none_is = elim (Bool-cases (is_role "tool" m)) [
  | inr n ↦ rw n refl
  | inl y ↦ elim (Option-cases m.tool_call_id) [
    | inl e ↦ rw (y, e) refl
    | inr (cid, e) ↦ rw (y, e, none_is cid) refl
  ]
]

retain-stays :
    (orphaned : List String) (ms : List ChatMessage)
    → ((id : String) → has id orphaned ≡ false)
    → retain (stays orphaned) ms ≡ ms
retain-stays orphaned [] none_is = refl
retain-stays orphaned (m ∷ ms) none_is =
    rw (stays-all orphaned m none_is) (ap (◌∷◌ m) (retain-stays orphaned ms none_is))

has-empty : (ids : List String) → ((id : String) → has id ids ≡ false) → is_empty ids ≡ true
has-empty [] none_is = refl
has-empty (x ∷ ids) none_is = ground (arith, none_is x, =?_refl x)

-- Messages whose calls and results already match are left as they are; a second
-- `sanitize_tool_pairs` changes nothing.
pub sanitize_tool_pairs-fixed : (ms : List ChatMessage) → IsPaired ms → sanitize_tool_pairs ms ≡ ms
unfolding sanitize_tool_pairs
sanitize_tool_pairs-fixed ms paired =
    rw
      (has-empty (lacking ms) (λ id.
        ground (arith, has-retain (λ x. not (has x (result_ids ms))) id (call_ids ms), paired id)))
      (retain-stays (orphans ms) ms (λ id.
        ground (arith, has-retain (λ x. not (has x (call_ids ms))) id (result_ids ms), paired id)))
