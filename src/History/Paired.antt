-- ===== src/History/Paired.antt =====
-- Every result has its call and every call its result, after `sanitize_tool_pairs`
-- (src/agent/compaction.rs).
use openpaw.Prelude.{
  Bool, true, false, not, ◌&&◌, ◌||◌, ◌≡◌, refl, ap, ◌∙◌, List, [], ◌∷◌, ◌++◌, String, arith, ◌=?◌,
  string_keyed, retain, Bool-cases, Option-cases, inl, inr,
}
use openpaw.History.{ToolCall, ChatMessage, is_role, calls_of}
use openpaw.History.Pairs.{has, ids_of, call_ids, result_id, result_ids, stays, stubs, patch}

-- The same ids have a call and a result.
abbrev pub IsPaired : List ChatMessage → Type 0
IsPaired ms = (id : String) → has id (result_ids ms) ≡ has id (call_ids ms)

pub has-append : (id : String) (xs ys : List String) → has id (xs ++ ys) ≡ (has id xs || has id ys)
has-append id [] ys = refl
has-append id (x ∷ xs) ys = ground (arith, has-append id xs ys)

pub has-retain :
    (p : String → Bool) (id : String) (xs : List String)
    → has id (retain p xs) ≡ (p id && has id xs)
has-retain p id [] = ground arith
has-retain p id (x ∷ xs) = ground (arith, has-retain p id xs, string_keyed.beq_iff x id)

pub has-same : (xs : List String) (a b : String) → (a =? b) ≡ true → has a xs ≡ has b xs
has-same xs a b h = ap (λ x. has x xs) ((string_keyed.beq_iff a b).0 h)

pub not_both : (m : ChatMessage) → is_role "tool" m ≡ true → is_role "assistant" m ≡ false
not_both m h = rw ((string_keyed.beq_iff m.role "tool").0 h) refl

module _ (orphaned : List String) where
  pub call_ids-retain :
      (ms : List ChatMessage) → call_ids (retain (stays orphaned) ms) ≡ call_ids ms
  call_ids-retain [] = refl
  call_ids-retain (m ∷ ms) = elim (Bool-cases (stays orphaned m)) [
    | inl y ↦ ground (arith, y, call_ids-retain ms)
    | inr n ↦ ground (arith, n, call_ids-retain ms, not_both m)
  ]

  pub result_ids-retain :
      (id : String) (ms : List ChatMessage)
      → has id (result_ids (retain (stays orphaned) ms))
        ≡ (not (has id orphaned) && has id (result_ids ms))
  result_ids-retain id [] = ground arith
  result_ids-retain id (m ∷ ms) = elim (Bool-cases (is_role "tool" m)) [
    | inr n ↦ rw (n, n) (result_ids-retain id ms)
    | inl y ↦ elim (Option-cases m.tool_call_id) [
      | inl e ↦ rw (y, e, y) (result_ids-retain id ms)
      | inr (cid, e) ↦
          rw (y, e)
            (elim (Bool-cases (has cid orphaned)) [
              | inl h ↦ rw h (ground (arith, h, has-same orphaned cid id, result_ids-retain id ms))
              | inr h ↦
                  rw (h, y) (ground (arith, h, has-same orphaned cid id, result_ids-retain id ms))
            ])
    ]
  ]

module _ (missing : List String) where
  has-stubs :
      (id : String) (tcs : List ToolCall) (ms : List ChatMessage)
      → has "" missing ≡ false
      → has id (result_ids (stubs missing tcs ++ ms))
        ≡ ((has id missing && has id (ids_of tcs)) || has id (result_ids ms))
  has-stubs id [] ms named = ground arith
  has-stubs id (tc ∷ tcs) ms named = elim (Bool-cases (has tc.id missing)) [
    | inl y ↦ rw y (
        ground (
          arith,
          y,
          named,
          has-stubs id tcs ms named,
          has-same missing tc.id id,
          has-same missing tc.id "",
        ))
    | inr n ↦ rw n (ground (arith, n, named, has-stubs id tcs ms named, has-same missing tc.id id))
  ]

  call_ids-stubs :
      (tcs : List ToolCall) (ms : List ChatMessage)
      → call_ids (stubs missing tcs ++ ms) ≡ call_ids ms
  call_ids-stubs [] ms = refl
  call_ids-stubs (tc ∷ tcs) ms = ground (arith, call_ids-stubs tcs ms)

  pub call_ids-patch : (ms : List ChatMessage) → call_ids (patch missing ms) ≡ call_ids ms
  call_ids-patch [] = refl
  call_ids-patch (m ∷ ms) = elim (Bool-cases (is_role "assistant" m)) [
    | inl y ↦ rw y (
        ap (λ ids. ids_of (calls_of m) ++ ids)
          (call_ids-stubs (calls_of m) (patch missing ms) ∙ call_ids-patch ms))
    | inr n ↦ rw n (call_ids-patch ms)
  ]

  -- The ids of the results, with those of the stubs.
  pub result_ids-patch :
      (id : String) (ms : List ChatMessage)
      → has "" missing ≡ false
      → has id (result_ids (patch missing ms))
        ≡ (has id (result_ids ms) || (has id missing && has id (call_ids ms)))
  result_ids-patch id [] named = ground arith
  result_ids-patch id (m ∷ ms) named = elim (Bool-cases (is_role "assistant" m)) [
    | inl y ↦ ground (
      arith,
      y,
      not_both m,
      has-stubs id (calls_of m) (patch missing ms) named,
      result_ids-patch id ms named,
      has-append id (ids_of (calls_of m)) (call_ids ms),
    )
    | inr n ↦ rw n (elim (Bool-cases (is_role "tool" m)) [
      | inl t ↦ rw t (
          ground (
            arith,
            has-append id (result_id m) (result_ids (patch missing ms)),
            has-append id (result_id m) (result_ids ms),
            result_ids-patch id ms named,
          ))
      | inr u ↦ rw u (result_ids-patch id ms named)
    ])
  ]
