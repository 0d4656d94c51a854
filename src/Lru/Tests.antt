-- ===== src/Lru/Tests.antt =====
-- Runs of the memory in process (src/memory/engines/lru.rs), and the theorems at them.
use openpaw.Prelude.{
  ◌≤◌, ◌≡◌, refl, none, List, [], ◌∷◌, String, string_keyed, length, if◌then◌else◌,
}
use openpaw.Dict
use openpaw.Lru.{
  Entry, LruMemory, MemoryCategory, new, touch, evict, store, forget, get, Call, stores, step, run,
}
use openpaw.Lru.Count.{places}
use openpaw.Lru.Agreement.{run-IsLru}

program : Unit {0}
unfolding new touch evict store forget get step run
program = tt

abbrev put : String → Call
put key = stores key "text" MemoryCategory.core none "now"

abbrev calls : List Call
calls = put "a" ∷ put "b" ∷ put "a" ∷ put "c" ∷ []

abbrev memory : LruMemory
memory = run (new 2) calls

kept : memory.order ≡ "c" ∷ "a" ∷ []
unfolding program
kept = refl

run-IsLru_example :
    (length (run (new 2) calls).map ≤ (run (new 2) calls).capacity)
    × (places "a" (run (new 2) calls).order
        ≡ (if Dict.contains_key "a" (run (new 2) calls).map then 1 else 0))
run-IsLru_example = run-IsLru 2 calls "a"

abbrev new_entry : Entry
new_entry = record {
  key = "d";
  content = "new";
  category = MemoryCategory.tool;
  timestamp = "later";
  session_id = none;
}

abbrev oldest : String
oldest = "a"
