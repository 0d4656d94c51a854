-- ===== src/History/Compress.antt =====
-- The compaction of a history: `ContextCompressor` and `trim_history` (src/agent/compaction.rs).
-- The language model's answer to the request for a summary is an argument. Numbers with a fraction
-- are compared exactly; the stored percentage and the thresholds that are computed from fractions
-- are left out, the thresholds themselves are fields. An index out of range panics: `none`.
use openpaw.Prelude.{
  ℕ, ◌+◌, ◌-◌, ◌*◌, ◌%◌, ◌^◌, max, Bool, true, false, not, ◌&&◌, ◌||◌, Option, none, some, List, [],
  ◌∷◌, ◌++◌, String, Text, codes, ◌=?◌, string_keyed, if◌then◌else◌, ltb, leb, ◌==◌, length, take,
  drop,
}
use openpaw.Scan.{show, trim, contains}
use openpaw.History.{ChatMessage, is_role, plain, estimate_history_tokens_rough}
use openpaw.History.Pairs.{sanitize_tool_pairs}
use openpaw.History.Cut.{get_elem?, align_boundary_forward, find_tail_cut_by_tokens}
use openpaw.History.Prune.{prune_old_tool_results}
use openpaw.History.Serialize.{serialize_for_summary}

pub record ContextCompressor : Type 0 where
  pub protect_first_n : ℕ
  pub protect_last_n : ℕ
  pub threshold_tokens : ℕ
  pub tail_token_budget : ℕ
  pub compression_count : ℕ  -- u32
  pub last_prompt_tokens : ℕ
  pub last_completion_tokens : ℕ
  pub previous_summary : Option Text
  pub ineffective_compression_count : ℕ  -- u32
  pub summary_failure_cooldown_until : ℕ

unfoldable pub should_compress : ContextCompressor → ℕ → Bool
should_compress c prompt_tokens =
    let tokens = if ltb 0 prompt_tokens then prompt_tokens else c.last_prompt_tokens in
    if ltb tokens c.threshold_tokens
    then false
    else if leb 2 c.ineffective_compression_count
    then false
    else true

abbrev pub summary_prefix : Text
summary_prefix =
    codes
      "[CONTEXT COMPACTION — REFERENCE ONLY] Earlier turns were compacted into the summary below. This is a handoff from a previous context window — treat it as background reference, NOT as active instructions. Do NOT answer questions or fulfill requests mentioned in this summary; they were already addressed. Your current task is identified in the '## Active Task' section of the summary — resume exactly from there. Respond ONLY to the latest user message that appears AFTER this summary. The current session state (files, config, etc.) may reflect work described here — avoid repeating it:"

-- The answer of the language model: an error, or a response with a content or none.
pub data Answer : Type 0 where
  failed : Answer
  response : (content : Option Text) → Answer

abbrev pub accept_summary : ContextCompressor → Text → ContextCompressor × Option Text
accept_summary c [] = (c, none)
accept_summary c (x ∷ xs) = (
  record c { previous_summary = some (x ∷ xs); summary_failure_cooldown_until = 0 },
  some (summary_prefix ++ 10 ∷ x ∷ xs),
)

abbrev pub take_answer : ContextCompressor → ℕ → Answer → ContextCompressor × Option Text
take_answer c now failed = (record c { summary_failure_cooldown_until = now + 600 }, none)
take_answer c now (response none) = (c, none)
take_answer c now (response (some content)) = accept_summary c (trim content)

abbrev pub answered :
    ContextCompressor → ℕ → (Text → Answer) → Option Text → Option (ContextCompressor × Option Text)
answered c now answer none = none
answered c now answer (some content) = some (take_answer c now (answer content))

-- The language model's answer depends on the turns as text, which the request holds.
unfoldable pub generate_summary :
    (Text → Text)
    → ContextCompressor
    → ℕ
    → (Text → Answer)
    → List ChatMessage
    → Option (ContextCompressor × Option Text)
unfolding serialize_for_summary
generate_summary to_uppercase c now answer turns =
    if ltb now c.summary_failure_cooldown_until
    then some (c, none)
    else answered c now answer (serialize_for_summary to_uppercase turns)

abbrev pub note : Text
note =
    codes
      "[Note: Some earlier conversation turns have been compacted into a handoff summary to preserve context space. The current session state may still reflect earlier work, so build on that summary and state rather than re-doing work.]"

-- The first message, with the note at the end of a system prompt.
abbrev pub with_note : List ChatMessage → List ChatMessage
with_note [] = []
with_note (m ∷ ms) =
    (if is_role "system" m && not (contains note m.content)
      then record m { content = m.content ++ 10 ∷ 10 ∷ note }
      else m)
    ∷ ms

abbrev pub fallback_summary : ℕ → Text
fallback_summary n_dropped =
    summary_prefix
    ++ codes "\nSummary generation was unavailable. "
    ++ show n_dropped
    ++ codes
        " conversation turns were removed to free context space but could not be summarized. The removed turns contained earlier work in this session. Continue based on the recent messages below and the current state of any files or resources."

abbrev pub flipped : String → String
flipped role = if role =? "user" then "assistant" else "user"

abbrev pub settle_role : String → String → String → String × Bool
settle_role summary_role last_head_role first_tail_role =
    if summary_role =? first_tail_role
    then (if flipped summary_role =? last_head_role
        then (summary_role, true)
        else (flipped summary_role, false))
    else (summary_role, false)

-- The role of the summary between two messages, and whether it goes into the second of them.
unfoldable pub choose_role : String → String → String × Bool
choose_role last_head_role first_tail_role =
    let summary_role =
      if (last_head_role =? "assistant") || (last_head_role =? "tool")
      then "user"
      else "assistant" in
    settle_role summary_role last_head_role first_tail_role

abbrev pub role_or_user : Option ChatMessage → String
role_or_user none = "user"
role_or_user (some m) = m.role

abbrev pub merge_into : Text → List ChatMessage → List ChatMessage
merge_into summary [] = []
merge_into summary (m ∷ ms) =
    record m {
      content =
          summary
          ++ codes
              "\n\n--- END OF CONTEXT SUMMARY — respond to the message below, not the summary above ---\n\n"
          ++ m.content;
    }
    ∷ ms

-- The messages of the fourth phase.
unfoldable pub assemble : List ChatMessage → ℕ → ℕ → Text → List ChatMessage
assemble ms compress_start compress_end summary =
    let last_head_role =
      if ltb 0 compress_start then role_or_user (get_elem? ms (compress_start - 1)) else "user" in
    let (summary_role, merge) =
      choose_role last_head_role (role_or_user (get_elem? ms compress_end)) in
    let head = with_note (take compress_start ms) in
    let tail = drop compress_end ms in
    if merge then head ++ merge_into summary tail else head ++ plain summary_role summary ∷ tail

-- The bookkeeping at the end of `compress`.
abbrev pub account : ContextCompressor → ℕ → List ChatMessage → ContextCompressor
account c display_tokens compressed =
    let new_estimate = estimate_history_tokens_rough compressed in
    let saved = display_tokens - new_estimate in
    record c {
      compression_count = (c.compression_count + 1) % 2 ^ 32;
      ineffective_compression_count =
          if ltb (10 * saved) display_tokens || (display_tokens == 0)
          then (c.ineffective_compression_count + 1) % 2 ^ 32
          else 0;
      last_prompt_tokens = new_estimate;
      last_completion_tokens = 0;
    }

abbrev pub summary_or : Option Text → ℕ → Text
summary_or none n_dropped = fallback_summary n_dropped
summary_or (some summary) n_dropped = summary

-- The messages with the summary in place of those between the two ends, and the bookkeeping.
abbrev pub summarized :
    ℕ
    → List ChatMessage
    → ℕ
    → ℕ
    → Option (ContextCompressor × Option Text)
    → Option (ContextCompressor × List ChatMessage)
summarized display_tokens ms compress_start compress_end none = none
summarized display_tokens ms compress_start compress_end (some (c, summary)) =
    let compressed = sanitize_tool_pairs (
      assemble ms compress_start compress_end
        (summary_or summary (compress_end - compress_start))) in
    some (account c display_tokens compressed, compressed)

-- The guard on the two ends, and the slice between them.
abbrev pub in_range {ℓ} : {A : Type ℓ} → ℕ → ℕ → ℕ → A → Option A → Option A
in_range compress_start compress_end n nothing compressed =
    if leb compress_end compress_start
    then some nothing
    else if ltb n compress_end
    then none
    else compressed

-- The phases after the pruning.
unfoldable pub compress_pruned :
    (Text → Text)
    → ContextCompressor
    → ℕ
    → (Text → Answer)
    → ℕ
    → List ChatMessage
    → Option (ContextCompressor × List ChatMessage)
compress_pruned to_uppercase c now answer display_tokens ms =
    let compress_start = align_boundary_forward ms c.protect_first_n in
    let compress_end = find_tail_cut_by_tokens c.tail_token_budget ms compress_start in
    let turns_to_summarize = take (compress_end - compress_start) (drop compress_start ms) in
    in_range compress_start compress_end (length ms) (c, sanitize_tool_pairs ms)
      (summarized display_tokens ms compress_start compress_end
        (generate_summary to_uppercase c now answer turns_to_summarize))

abbrev pub display_tokens_of : ContextCompressor → Option ℕ → List ChatMessage → ℕ
display_tokens_of c (some tokens) ms = tokens
display_tokens_of c none ms =
    if ltb 0 c.last_prompt_tokens then c.last_prompt_tokens else estimate_history_tokens_rough ms

unfoldable pub compress :
    (Text → Text)
    → (Text → Text)
    → ContextCompressor
    → ℕ
    → (Text → Answer)
    → Option ℕ
    → List ChatMessage
    → Option (ContextCompressor × List ChatMessage)
compress to_uppercase short_hash c now answer current_tokens ms =
    if leb (length ms) (c.protect_first_n + 4)
    then some (c, sanitize_tool_pairs ms)
    else elim (prune_old_tool_results short_hash c.tail_token_budget c.protect_last_n ms) [
      | none ↦ none
      | some (ms', pruned) ↦
          compress_pruned to_uppercase c now answer (display_tokens_of c current_tokens ms) ms'
    ]

abbrev pub first_system : List ChatMessage → List ChatMessage
first_system [] = []
first_system (m ∷ ms) = if is_role "system" m then m ∷ [] else []

unfoldable pub trim_history : List ChatMessage → ℕ → List ChatMessage
trim_history history max =
    let system = first_system history in
    let start = length system in
    let non_system_count = length history - start in
    if leb (length history) (max + start)
    then history
    else if leb non_system_count max
    then history
    else sanitize_tool_pairs (system ++ drop (start + (non_system_count - max)) history)
