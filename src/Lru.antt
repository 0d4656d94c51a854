-- ===== src/Lru.antt =====
-- The memory in process (src/memory/engines/lru.rs): a map and the order in which its keys were written.
-- The time stamp of an entry is an argument.
pub mod Count
pub mod Agreement
mod Tests
use openpaw.Prelude.{
  ℕ, Bool, true, false, Option, none, some, List, [], ◌∷◌, String, string_keyed, ◌=?◌, length, leb,
  max, if◌then◌else◌,
}
use openpaw.Dict

pub data MemoryCategory : Type 0 where
  core working archival tool learning : MemoryCategory

pub record Entry : Type 0 where
  pub key : String
  pub content : String
  pub category : MemoryCategory
  pub timestamp : String
  pub session_id : Option String

pub record LruMemory : Type 0 where
  pub capacity : ℕ
  pub map : List (String × Entry)
  pub order : List String  -- the front was written last

unfoldable pub new : ℕ → LruMemory
new capacity = record { capacity = max capacity 1; map = []; order = [] }

-- `position` and `remove`: the first place of a key is taken out.
abbrev pub take_out : String → List String → List String
take_out key [] = []
take_out key (k ∷ ks) = if k =? key then ks else k ∷ take_out key ks

unfoldable pub touch : LruMemory → String → LruMemory
touch s key = record s { order = key ∷ take_out key s.order }

-- `pop_back`: what is left, and the last key.
abbrev pub pop_back : List String → Option (List String × String)
pop_back [] = none
pop_back (k ∷ ks) = elim (pop_back ks) [
  | none ↦ some ([], k)
  | some (rest, last) ↦ some (k ∷ rest, last)
]

abbrev pub without_last : Option (List String × String) → LruMemory → LruMemory
without_last none s = s
without_last (some (rest, old)) s = record s { map = Dict.remove old s.map; order = rest }

-- Room for one more entry.
unfoldable pub evict : LruMemory → LruMemory
evict s = if leb s.capacity (length s.map) then without_last (pop_back s.order) s else s

abbrev pub rewrite : String → MemoryCategory → Entry → Entry
rewrite content category e = record e { content = content; category = category }

abbrev pub put : Entry → LruMemory → LruMemory
put e s = record s { map = Dict.insert e.key e s.map; order = e.key ∷ s.order }

unfoldable pub store :
    LruMemory → String → String → MemoryCategory → Option String → String → LruMemory
unfolding touch evict
store s key content category session_id now =
    if Dict.contains_key key s.map
    then touch (record s { map = Dict.update key (rewrite content category) s.map }) key
    else put
        (record {
          key = key;
          content = content;
          category = category;
          timestamp = now;
          session_id = session_id;
        })
        (evict s)

unfoldable pub forget : LruMemory → String → LruMemory × Bool
forget s key =
    if Dict.contains_key key s.map
    then (record s { map = Dict.remove key s.map; order = take_out key s.order }, true)
    else (s, false)

-- The entry itself, which the source copies field by field (`to_entry`).
unfoldable pub get : LruMemory → String → Option Entry
get s key = Dict.get key s.map

pub data Call : Type 0 where
  stores : String → String → MemoryCategory → Option String → String → Call
  forgets : String → Call

unfoldable pub step : LruMemory → Call → LruMemory
step s (stores key content category session_id now) = store s key content category session_id now
step s (forgets key) = (forget s key).0

unfoldable pub run : LruMemory → List Call → LruMemory
run s [] = s
run s (c ∷ cs) = run (step s c) cs
