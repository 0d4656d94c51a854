-- ===== src/History/Pruned.antt =====
-- What the pruning of tool results (src/agent/compaction.rs) reaches, and what it leaves alone.
use openpaw.Prelude.{
  if-has, ℕ, ◌+◌, ◌-◌, ◌*◌, ◌/◌, ◌≤◌, ◌≡◌, refl, ap, ◌∙◌, zero, suc, min, true, not, ◌||◌, Option,
  none, some, List, [], ◌∷◌, map, String, Text, arith, length, ltb, if◌then◌else◌, any, text_eq,
}
use openpaw.History.{ChatMessage, is_role, len}
use openpaw.History.Cut.{message_tokens, reverse_onto}
use openpaw.History.Prune.{
  budget_walk, prune_boundary, dedupe, duplicate, is_kept, with_summary, prune_one, prepend,
  summarize_old, add_pruned, prune_old_tool_results, index_calls,
}

budget_walk-least :
    (limit least : ℕ) (back : List ChatMessage) (taken accumulated : ℕ)
    → least ≤ taken + length back
    → least ≤ budget_walk limit least back taken accumulated
budget_walk-least limit least [] taken accumulated h = omega arith
budget_walk-least limit least (m ∷ back) taken accumulated h =
    ground (arith, budget_walk-least limit least back (suc taken) (accumulated + message_tokens m))

length-reverse_onto :
    (xs acc : List ChatMessage) → length (reverse_onto xs acc) ≡ length xs + length acc
length-reverse_onto [] acc = omega arith
length-reverse_onto (x ∷ xs) acc = omega (arith, length-reverse_onto xs (x ∷ acc))

-- The budget of tokens never matters: whatever it is, and whatever the messages hold, the results
-- that may be pruned are those before the last `protect_tail_count` messages (of a shorter list,
-- before all but the first message).
pub prune_boundary-fixed :
    (budget count : ℕ) (ms : List ChatMessage)
    → prune_boundary budget count ms ≡ length ms - min count (length ms - 1)
unfolding prune_boundary
prune_boundary-fixed budget count ms = omega (
  arith,
  length-reverse_onto ms [],
  budget_walk-least (budget * 3 / 2) (min count (length ms - 1)) (reverse_onto ms []) 0 0
      (omega (arith, length-reverse_onto ms [])),
)

-- A message without what the pruning may change.
abbrev pub bare : ChatMessage → ChatMessage
bare m = if is_role "tool" m then record m { content = [] } else m

bare-content :
    (m : ChatMessage) (content : Text)
    → is_role "tool" m ≡ true
    → bare (record m { content = content }) ≡ bare m
bare-content m content h = rw h refl

module _ (short_hash : Text → Text) where
  dedupe-bare : (ms : List ChatMessage) → map bare (dedupe short_hash ms).0 ≡ map bare ms
  unfolding dedupe
  dedupe-bare [] = refl
  dedupe-bare (m ∷ ms) =
      let same = ap (◌∷◌ (bare m)) (dedupe-bare ms) in
      let Same : List ChatMessage × List Text × ℕ → Type 0 =
        λ out. map bare out.0 ≡ bare m ∷ map bare ms in
      if-has Same (not (is_role "tool" m) || ltb (len m.content) 200) _ _ same (λ tool.
        if-has Same (any (text_eq (short_hash m.content)) (dedupe short_hash ms).1) _ _
          (ap (λ x. x ∷ map bare (dedupe short_hash ms).0) (bare-content m duplicate (ground arith))
            ∙ same)
          (λ _. same))

-- A pruned message, and pruned messages, are what they were but for the contents of tool results.
abbrev KeepsOne : ChatMessage → Option (ChatMessage × ℕ) → Type 0
KeepsOne m none = Unit
KeepsOne m (some (m', k)) = bare m' ≡ bare m

abbrev pub Keeps : List ChatMessage → Option (List ChatMessage × ℕ) → Type 0
Keeps ms none = Unit
Keeps ms (some (ms', k)) = map bare ms' ≡ map bare ms

with_summary-keeps :
    (m : ChatMessage) (o : Option Text) → is_role "tool" m ≡ true → KeepsOne m (with_summary m o)
with_summary-keeps m none h = tt
with_summary-keeps m (some summary) h = bare-content m summary h

prune_one-keeps :
    (index : List (String × (String × Text))) (m : ChatMessage) → KeepsOne m (prune_one index m)
prune_one-keeps index m =
    if-has (KeepsOne m) (is_kept m) _ _ refl (λ n. with_summary-keeps m _ (ground arith))

prepend-Keeps :
    (m : ChatMessage) (ms : List ChatMessage) (o : Option (ChatMessage × ℕ))
    (rest : Option (List ChatMessage × ℕ))
    → KeepsOne m o
    → Keeps ms rest
    → Keeps (m ∷ ms) (prepend o rest)
prepend-Keeps m ms none rest h t = tt
prepend-Keeps m ms (some (m', k)) none h t = tt
prepend-Keeps m ms (some (m', k)) (some (ms', j)) h t =
    ap (λ x. x ∷ map bare ms') h ∙ ap (◌∷◌ (bare m)) t

summarize_old-Keeps :
    (index : List (String × (String × Text))) (boundary : ℕ) (ms : List ChatMessage)
    → Keeps ms (summarize_old index boundary ms)
unfolding summarize_old
summarize_old-Keeps index zero ms = refl
summarize_old-Keeps index (suc boundary) [] = refl
summarize_old-Keeps index (suc boundary) (m ∷ ms) =
    prepend-Keeps m ms (prune_one index m) (summarize_old index boundary ms)
      (prune_one-keeps index m) (summarize_old-Keeps index boundary ms)

add_pruned-Keeps :
    (k : ℕ) (ms ms' : List ChatMessage) (o : Option (List ChatMessage × ℕ))
    → map bare ms' ≡ map bare ms
    → Keeps ms' o
    → Keeps ms (add_pruned k o)
add_pruned-Keeps k ms ms' none e h = tt
add_pruned-Keeps k ms ms' (some (out, j)) e h = h ∙ e

-- The pruning of tool results, if it comes to an end, leaves every message in its place: it changes
-- the contents of messages of the role `tool` and nothing else.
pub prune_old_tool_results-Keeps :
    (short_hash : Text → Text) (budget count : ℕ) (ms : List ChatMessage)
    → Keeps ms (prune_old_tool_results short_hash budget count ms)
unfolding prune_old_tool_results
prune_old_tool_results-Keeps short_hash budget count ms =
    let out = dedupe short_hash ms in
    add_pruned-Keeps out.2 ms out.0
      (summarize_old (index_calls ms []) (min (prune_boundary budget count ms) (length ms)) out.0)
      (dedupe-bare short_hash ms) (summarize_old-Keeps _ _ out.0)
