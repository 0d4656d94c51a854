-- ===== src/History/Tests.antt =====
-- Runs of the compaction (src/agent/compaction.rs), and its theorems at inputs.
use openpaw.Prelude.{
  ◌≤◌, ◌≡◌, ◌↔◌, refl, true, none, some, List, [], ◌∷◌, String, codes, arith, all, drop,
  string_keyed,
}
use openpaw.History.{ToolCall, ChatMessage, is_role, plain, len, estimate_tokens_rough}
use openpaw.History.Pairs.{sanitize_tool_pairs, stub}
use openpaw.History.Paired.{IsPaired}
use openpaw.History.Sanitized.{sanitize_tool_pairs-IsPaired}
use openpaw.History.Cut.{
  align_boundary_forward, align_boundary_backward, find_last_user_message_idx,
  ensure_last_user_message_in_tail, find_tail_cut_by_tokens,
}
use openpaw.History.Bounds.{find_tail_cut_by_tokens-user}
use openpaw.History.Prune.{
  prune_boundary, prune_old_tool_results, slice_to, summarize_tool_result, dedupe,
}
use openpaw.History.Pruned.{prune_boundary-fixed, Keeps, prune_old_tool_results-Keeps}
use openpaw.History.Compress.{ContextCompressor, failed, choose_role, compress_pruned, trim_history}
use openpaw.History.Compressed.{compress_pruned-panic}
use openpaw.Scan.{show, line_count}

program : Unit {0}
unfolding sanitize_tool_pairs align_boundary_forward align_boundary_backward
    find_last_user_message_idx ensure_last_user_message_in_tail find_tail_cut_by_tokens len show
    line_count slice_to summarize_tool_result prune_boundary choose_role trim_history dedupe
    estimate_tokens_rough
program = tt

abbrev call : String → ToolCall
call id = record {
  id = id;
  kind = "function";
  name = "shell";
  arguments = codes "ls";
  thought_signature = none;
}

abbrev asks : List ToolCall → ChatMessage
asks tcs = record (plain "assistant" []) { tool_calls = some tcs }

abbrev answers : String → ChatMessage
answers id = record (plain "tool" (codes "ok")) { tool_call_id = some id }

abbrev talk : List ChatMessage
talk =
    plain "system" (codes "be brief")
    ∷ plain "user" (codes "list")
    ∷ asks (call "a" ∷ call "b" ∷ [])
    ∷ answers "a"
    ∷ answers "c"
    ∷ plain "user" (codes "again")
    ∷ []

-- The result without a call goes, and the call without a result gets one.
sanitized :
    sanitize_tool_pairs talk
    ≡ plain "system" (codes "be brief")
      ∷ plain "user" (codes "list")
      ∷ asks (call "a" ∷ call "b" ∷ [])
      ∷ stub (call "b")
      ∷ answers "a"
      ∷ plain "user" (codes "again")
      ∷ []
unfolding program
sanitized = refl

short_texts :
    (estimate_tokens_rough [] ≡ 0)
    × (estimate_tokens_rough (codes "a") ≡ 1)
    × (estimate_tokens_rough (codes "abcd") ≡ 1)
    × (estimate_tokens_rough (codes "abcde") ≡ 2)
unfolding program
short_texts = (refl, refl, refl, refl)

-- The euro sign has three bytes: a slice inside it panics.
slice_inside : (slice_to 3 (codes "€1") ≡ some (codes "€")) × (slice_to 2 (codes "€1") ≡ none)
unfolding program
slice_inside = (refl, refl)

file_summary :
    summarize_tool_result "file_read" [] (codes "abc")
    ≡ some (codes "[read_file] read file (3 chars)")
unfolding program
file_summary = refl

sanitize_tool_pairs-IsPaired_example : IsPaired (sanitize_tool_pairs talk)
sanitize_tool_pairs-IsPaired_example = sanitize_tool_pairs-IsPaired talk

find_tail_cut_by_tokens-user_example : find_tail_cut_by_tokens 100 talk 2 ≤ 5
find_tail_cut_by_tokens-user_example =
    find_tail_cut_by_tokens-user 100 talk 2 5 refl refl (omega arith)

prune_boundary-fixed_example : prune_boundary 100 4 talk ≡ 2
prune_boundary-fixed_example = prune_boundary-fixed 100 4 talk

abbrev compressor : ContextCompressor
compressor = record {
  protect_first_n = 3;
  protect_last_n = 20;
  threshold_tokens = 64_000;
  tail_token_budget = 12_800;
  compression_count = 0;
  last_prompt_tokens = 0;
  last_completion_tokens = 0;
  previous_summary = none;
  ineffective_compression_count = 0;
  summary_failure_cooldown_until = 0;
}

-- One request whose first answer calls five tools at once.
abbrev fan_out : List ChatMessage
fan_out =
    plain "system" []
    ∷ plain "user" []
    ∷ asks (call "a" ∷ call "b" ∷ call "c" ∷ call "d" ∷ call "e" ∷ [])
    ∷ answers "a"
    ∷ answers "b"
    ∷ answers "c"
    ∷ answers "d"
    ∷ answers "e"
    ∷ []

compress_pruned-panic_example :
    (compress_pruned (λ s. s) compressor 0 (λ s. failed) 70_000 fan_out ≡ none)
    ↔ (all (is_role "tool") (drop 3 fan_out) ≡ true)
compress_pruned-panic_example =
    compress_pruned-panic (λ s. s) compressor 0 (λ s. failed) 70_000 fan_out (omega arith)
      (omega arith)

fan_out_panics : compress_pruned (λ s. s) compressor 0 (λ s. failed) 70_000 fan_out ≡ none
fan_out_panics = compress_pruned-panic_example.1 refl

prune_old_tool_results-Keeps_example : Keeps talk (prune_old_tool_results (λ s. s) 100 4 talk)
prune_old_tool_results-Keeps_example = prune_old_tool_results-Keeps (λ s. s) 100 4 talk
