-- ===== src/Lru/Agreement.antt =====
-- The map and the order agree, and stay within the capacity (src/memory/engines/lru.rs).
use openpaw.Prelude.{
  ℕ, ◌≤◌, ◌<◌, ◌≡◌, refl, true, false, Option, none, some, List, [], ◌∷◌, String, string_keyed,
  ◌=?◌, length, arith, if◌then◌else◌, leb, Option-cases, Bool-cases, inl, inr,
}
use openpaw.Dict
use openpaw.Dict.{get-insert, get-remove}
use openpaw.Lru.{
  Entry, LruMemory, MemoryCategory, new, touch, pop_back, evict, rewrite, put, store, forget, get,
  Call, stores, forgets, step, run,
}
use openpaw.Lru.Count.{
  places, key_places, contains-key_places, places-take_out, key_places-update, length-update,
  key_places-remove, length-remove, key_places-insert, length-insert, places-pop_back,
  pop_back-none,
}

-- Every key of the map stands once in the order, and there are no more entries than the capacity.
pub record IsLru (s : LruMemory) : Type 0 where
  pub once : (k : String) → key_places k s.map ≤ 1
  pub agree : (k : String) → places k s.order ≡ key_places k s.map
  pub fits : length s.map ≤ s.capacity
  pub room : 1 ≤ s.capacity

no_keys : (m : List (String × Entry)) → ((k : String) → key_places k m ≡ 0) → length m ≡ 0
no_keys [] h = refl
no_keys ((j, e) ∷ m) h = absurd (ground (arith, h j, string_keyed.beq_iff j j))

touch-IsLru :
    (s : LruMemory) (key : String) (f : Entry → Entry)
    → Dict.contains_key key s.map ≡ true
    → IsLru s
    → IsLru (touch (record s { map = Dict.update key f s.map }) key)
unfolding touch
touch-IsLru s key f h q = record {
  once = λ k. omega (arith, q.once k, key_places-update k key f s.map);
  agree = λ k. ground (
    arith,
    q.agree k,
    q.agree key,
    key_places-update k key f s.map,
    contains-key_places key s.map,
    places-take_out k key s.order,
  );
  fits = omega (arith, q.fits, length-update key f s.map);
  room = q.room;
}

-- After the eviction there is room, and a key that was not there is still not there.
record HasRoom (key : String) (s : LruMemory) : Type 0 where
  lru : IsLru s
  free : length s.map < s.capacity
  absent : key_places key s.map ≡ 0

popped-HasRoom :
    (s : LruMemory) (key old : String) (rest : List String)
    → Dict.contains_key key s.map ≡ false
    → pop_back s.order ≡ some (rest, old)
    → IsLru s
    → HasRoom key (record s { map = Dict.remove old s.map; order = rest })
popped-HasRoom s key old rest h last q =
    let one : key_places old s.map ≡ 1 = ground (
      arith,
      q.once old,
      q.agree old,
      places-pop_back old old s.order rest last,
      string_keyed.beq_iff old old,
    ) in
    let shorter = length-remove old s.map in
    record {
      lru = record {
        once = λ k. ground (arith, q.once k, key_places-remove k old s.map);
        agree = λ k. ground (
          arith,
          q.agree k,
          q.once k,
          places-pop_back k old s.order rest last,
          key_places-remove k old s.map,
          string_keyed.beq_iff old k,
        );
        fits = omega (arith, q.fits, shorter);
        room = q.room;
      };
      free = omega (arith, q.fits, shorter, one);
      absent = ground (arith, key_places-remove key old s.map, contains-key_places key s.map);
    }

evict-HasRoom :
    (s : LruMemory) (key : String)
    → Dict.contains_key key s.map ≡ false
    → IsLru s
    → HasRoom key (evict s)
unfolding evict
evict-HasRoom s key h q = elim (Bool-cases (leb s.capacity (length s.map))) [
  | inl full ↦ elim (Option-cases (pop_back s.order)) [
    | inl e ↦ absurd (
        ground
          (arith, q.room, no_keys s.map (λ k. ground (arith, q.agree k, pop_back-none s.order e))))
    | inr ((rest, old), e) ↦ rw (full, e) (popped-HasRoom s key old rest h e q)
  ]
  | inr free ↦ rw free (record {
    lru = q;
    free = ground arith;
    absent = ground (arith, contains-key_places key s.map);
  })
]

put-IsLru : (s : LruMemory) (e : Entry) → HasRoom e.key s → IsLru (put e s)
put-IsLru s e r = record {
  once = λ k. ground (
    arith,
    r.lru.once k,
    r.absent,
    key_places-insert k e.key e s.map,
    string_keyed.beq_iff e.key k,
  );
  agree = λ k. ground (arith, r.lru.agree k, r.absent, key_places-insert k e.key e s.map);
  fits = omega (arith, r.free, length-insert e.key e s.map r.absent);
  room = r.lru.room;
}

store-IsLru :
    (s : LruMemory) (key content : String) (category : MemoryCategory) (session_id : Option String)
    (now : String)
    → IsLru s
    → IsLru (store s key content category session_id now)
unfolding store
store-IsLru s key content category session_id now q =
    elim (Bool-cases (Dict.contains_key key s.map)) [
      | inl e ↦ rw e (touch-IsLru s key (rewrite content category) e q)
      | inr e ↦ rw e (put-IsLru (evict s) _ (evict-HasRoom s key e q))
    ]

forget-IsLru : (s : LruMemory) (key : String) → IsLru s → IsLru (forget s key).0
unfolding forget
forget-IsLru s key q = elim (Bool-cases (Dict.contains_key key s.map)) [
  | inl e ↦ rw e (record {
    once = λ k. ground (arith, q.once k, key_places-remove k key s.map);
    agree = λ k. ground (
      arith,
      q.agree k,
      q.once k,
      q.agree key,
      key_places-remove k key s.map,
      contains-key_places key s.map,
      places-take_out k key s.order,
      string_keyed.beq_iff key k,
    );
    fits = omega (arith, q.fits, length-remove key s.map);
    room = q.room;
  })
  | inr e ↦ rw e q
]

run-IsLru_from : (cs : List Call) (s : LruMemory) → IsLru s → IsLru (run s cs)
unfolding run step
run-IsLru_from [] s q = q
run-IsLru_from (stores key content category session_id now ∷ cs) s q =
    run-IsLru_from cs _ (store-IsLru s key content category session_id now q)
run-IsLru_from (forgets key ∷ cs) s q = run-IsLru_from cs _ (forget-IsLru s key q)

-- However entries are stored and forgotten, a memory never holds more than its capacity (1 at least),
-- and every key that it holds stands in the order of writing exactly once, and no other key does.
pub run-IsLru :
    (capacity : ℕ) (cs : List Call) (k : String)
    → let s = run (new capacity) cs in
      (length s.map ≤ s.capacity)
      × (places k s.order ≡ (if Dict.contains_key k s.map then 1 else 0))
run-IsLru capacity cs k =
    let q = run-IsLru_from cs (new capacity) (
      unfold new in
      record {
        once = λ k. omega arith;
        agree = λ k. refl;
        fits = omega arith;
        room = omega arith;
      }) in
    (q.fits, ground (arith, q.agree k, q.once k, contains-key_places k (run (new capacity) cs).map))

-- When a new key comes to a memory that is full, the entry that was written longest ago goes, the new
-- one is there, and every other key keeps its entry. Reads do not count: only writes order the keys.
pub store-evicts :
    (s : LruMemory) (key content : String) (category : MemoryCategory) (session_id : Option String)
    (now : String) (rest : List String) (old k : String)
    → Dict.contains_key key s.map ≡ false
    → s.capacity ≤ length s.map
    → pop_back s.order ≡ some (rest, old)
    → get (store s key content category session_id now) k ≡ (
        if key =? k
        then some (record {
          key = key;
          content = content;
          category = category;
          timestamp = now;
          session_id = session_id;
        })
        else if old =? k
        then none
        else get s k)
unfolding store evict get
store-evicts s key content category session_id now rest old k h full last =
    let e : Entry = record {
      key = key;
      content = content;
      category = category;
      timestamp = now;
      session_id = session_id;
    } in
    ground (arith, get-insert key k e (Dict.remove old s.map), get-remove old k s.map)
