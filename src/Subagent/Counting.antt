-- ===== src/Subagent/Counting.antt =====
-- How the writes to the map change the number of running tasks (src/subagent.rs).
use openpaw.Prelude.{ℕ, ◌+◌, ◌≤◌, ◌≡◌, some, List, [], ◌∷◌, nat_keyed, arith, if◌then◌else◌}
use openpaw.Dict
use openpaw.Subagent.{TaskState, is_running}
use openpaw.Subagent.Launch.{running_count}

-- 1 for a running task.
abbrev pub weight : TaskState → ℕ
weight t = if is_running t.status then 1 else 0

pub running_count-insert :
    (k : ℕ) (t : TaskState) (m : List (ℕ × TaskState))
    → running_count (Dict.insert k t m) ≤ running_count m + weight t
unfolding running_count
running_count-insert k t [] = ground arith
running_count-insert k t ((j, v) ∷ m) = ground (arith, running_count-insert k t m)

pub running_count-remove :
    (k : ℕ) (m : List (ℕ × TaskState)) → running_count (Dict.remove k m) ≤ running_count m
unfolding running_count
running_count-remove k [] = ground arith
running_count-remove k ((j, v) ∷ m) = ground (arith, running_count-remove k m)

-- A write that sets no task running.
pub running_count-update-le :
    (k : ℕ) (f : TaskState → TaskState) (m : List (ℕ × TaskState))
    → ((t : TaskState) → weight (f t) ≤ weight t)
    → running_count (Dict.update k f m) ≤ running_count m
unfolding running_count
running_count-update-le k f [] h = ground arith
running_count-update-le k f ((j, v) ∷ m) h = ground (arith, running_count-update-le k f m h, h v)

pub running_count-update-one :
    (k : ℕ) (f : TaskState → TaskState) (m : List (ℕ × TaskState))
    → running_count (Dict.update k f m) ≤ running_count m + 1
unfolding running_count
running_count-update-one k f [] = ground arith
running_count-update-one k f ((j, v) ∷ m) = ground (arith, running_count-update-one k f m)

-- The exact change.
pub running_count-update :
    (k : ℕ) (f : TaskState → TaskState) (m : List (ℕ × TaskState)) (t : TaskState)
    → Dict.get k m ≡ some t
    → running_count (Dict.update k f m) + weight t ≡ running_count m + weight (f t)
unfolding running_count
running_count-update k f [] t h = cc
running_count-update k f ((j, v) ∷ m) t h = ground (arith, running_count-update k f m t)

pub running_count-map_values :
    (f : TaskState → TaskState) (m : List (ℕ × TaskState))
    → ((t : TaskState) → weight (f t) ≤ weight t)
    → running_count (Dict.map_values f m) ≤ running_count m
unfolding running_count
running_count-map_values f [] h = ground arith
running_count-map_values f ((j, v) ∷ m) h = ground (arith, running_count-map_values f m h, h v)
