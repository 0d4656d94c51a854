-- ===== src/Events/Registry.antt =====
-- The table of watchers through its operations, and what an event fires (src/events.rs).
use openpaw.Prelude.{
  ℕ, ◌+◌, ◌%◌, ◌^◌, ◌≤◌, ◌<◌, ◌≡◌, refl, Option, none, some, List, [], ◌∷◌, Text, arith, All,
  nat_keyed, if◌then◌else◌, if-has, ltb, ◌==◌,
}
use openpaw.Dict as Dict
use openpaw.Events.Patterns.{Says}
use openpaw.Events.{WatcherAction, EventWatcher, EventRegistry, watch, Effects}

-- Each watcher has the id under which it stands, and the next id is larger than all of them.
abbrev pub IsKept : ℕ → ℕ × EventWatcher → Type 0
IsKept next (id, w) = (id ≡ w.id) × (id < next)

abbrev pub IsValid : EventRegistry → Type 0
IsValid r = All (IsKept r.next_id) r.watchers

Table : Type 0
Table = List (ℕ × EventWatcher)

insert-valid :
    (next id : ℕ) (w : EventWatcher) (ws : List (ℕ × EventWatcher))
    → IsKept next (id, w)
    → All (IsKept next) ws
    → All (IsKept next) (Dict.insert id w ws)
insert-valid next id w [] v h = (v, tt)
insert-valid next id w ((j, u) ∷ ws) v h =
    if-has (All (IsKept next)) (j == id) ((id, w) ∷ ws) ((j, u) ∷ Dict.insert id w ws) (v, h.1)
      (λ _. (h.0, insert-valid next id w ws v h.1))

remove-valid :
    (next id : ℕ) (ws : List (ℕ × EventWatcher))
    → All (IsKept next) ws
    → All (IsKept next) (Dict.remove id ws)
remove-valid next id [] h = tt
remove-valid next id ((j, u) ∷ ws) h =
    if-has (All (IsKept next)) (j == id) (Dict.remove id ws) ((j, u) ∷ Dict.remove id ws)
      (remove-valid next id ws h.1) (λ _. (h.0, remove-valid next id ws h.1))

grow-valid :
    (next later : ℕ) (ws : List (ℕ × EventWatcher))
    → next ≤ later
    → All (IsKept next) ws
    → All (IsKept later) ws
grow-valid next later [] le h = tt
grow-valid next later ((j, u) ∷ ws) le h =
    ((h.0.0, omega (arith, h.0.1)), grow-valid next later ws le h.1)

fresh-get :
    (next : ℕ) (ws : List (ℕ × EventWatcher)) → All (IsKept next) ws → Dict.get next ws ≡ none
fresh-get next [] h = refl
fresh-get next ((j, u) ∷ ws) h = ground (arith, fresh-get next ws h.1, h.0.1)

-- A new watcher gets an id that no watcher has, so that none is replaced, and the table stays valid
-- (while the ids fit in 64 bits).
pub watch-fresh :
    (event_pattern : Text) (action : WatcherAction) (label channel chat_id : Text) (now : ℕ)
    (r : EventRegistry)
    → r.next_id + 1 < 2 ^ 64
    → IsValid r
    → let (r', id) = watch event_pattern action label channel chat_id now r in
      (Dict.get id r.watchers ≡ none) × IsValid r'
unfolding watch
watch-fresh event_pattern action label channel chat_id now r room h =
    let next' : (r.next_id + 1) % 2 ^ 64 ≡ r.next_id + 1 = omega arith in
    (
      fresh-get r.next_id r.watchers h,
      rw next' (
          insert-valid (r.next_id + 1) r.next_id _ r.watchers (refl, omega arith)
            (grow-valid r.next_id (r.next_id + 1) r.watchers (omega arith) h)),
    )

-- What an event does to the watchers: each of those whose pattern stands for it counts it, the others
-- stay as they are; and how many there are.
pub data Fires (event : Text) : List (ℕ × EventWatcher) → List (ℕ × EventWatcher) → ℕ → Type 0 where
  nobody : Fires event [] [] 0
  hit :
      {id : ℕ} {w : EventWatcher} {ws ws' : List (ℕ × EventWatcher)} {n : ℕ}
      → Says w.event_pattern event
      → Fires event ws ws' n
      → Fires event
          ((id, w) ∷ ws)
          ((id, record w { fire_count = (w.fire_count + 1) % 2 ^ 64 }) ∷ ws')
          (1 + n)
  miss :
      {id : ℕ} {w : EventWatcher} {ws ws' : List (ℕ × EventWatcher)} {n : ℕ}
      → ¬ Says w.event_pattern event
      → Fires event ws ws' n
      → Fires event ((id, w) ∷ ws) ((id, w) ∷ ws') (0 + n)

module _ {I O : Type 0} where
  -- The end of the loop, if it comes.
  abbrev HasFired :
      Text → List (ℕ × EventWatcher) → Option (List (ℕ × EventWatcher) × Effects I O × ℕ) → Type 0
  HasFired event ws none = Unit
  HasFired event ws (some (ws', e, triggered)) = Fires event ws ws' triggered

  -- What `emit` returns, if it does not wait for a full queue.
  abbrev HasEmitted : Text → EventRegistry → Option (EventRegistry × Effects I O × ℕ) → Type 0
  HasEmitted event r none = Unit
  HasEmitted event r (some (r', e, n)) =
      Fires event r.watchers r'.watchers n
      × (r'.saved ≡ (if ltb 0 n then some r'.watchers else r.saved))
      × (r'.next_id ≡ r.next_id)
