-- ===== src/Plan/Spawned.antt =====
-- What the spawning of a batch has put on its list when nothing failed (src/plan.rs).
use openpaw.Prelude.{
  ℕ, ◌≡◌, true, false, ◌||◌, Option, none, some, List, [], ◌∷◌, ◌++◌, String, arith, Bool-cases,
  inl, inr, string_keyed, ◌=?◌, is_some, All,
}
use openpaw.Dict
use openpaw.Plan.{PlanTask, contains}
use openpaw.Plan.Execute.{Progress, note_spawn, spawn_found, spawn_batch, request}
use openpaw.Subagent.{SubagentManager}
use openpaw.Subagent.Launch.{spawn}
use openpaw.Plan.Outcomes.{HasSucceeded, spawned_key}

-- Every task of a batch stands in the table of the plan's tasks.
abbrev pub Knows : List (String × PlanTask) → List String → Type 0
Knows lookup batch = All (λ id. is_some (Dict.get id lookup) ≡ true) batch

-- If no spawn failed, nothing had failed before, the outcomes are those of before, and what was
-- spawned stays on the list.
abbrev pub HasSpawned : Progress × List (String × ℕ) → Progress × List (String × ℕ) → Type 0
HasSpawned b b' =
    b'.0.any_failed ≡ false
    → (b.0.any_failed ≡ false)
      × ((k : String) → HasSucceeded b.0 k → HasSucceeded b'.0 k)
      × ((k : String) → spawned_key k b.1 ≡ true → spawned_key k b'.1 ≡ true)

pub spawned_key-append :
    (k id : String) (sub_id : ℕ) (batch : List (String × ℕ))
    → spawned_key k (batch ++ (id, sub_id) ∷ []) ≡ (spawned_key k batch || (id =? k))
spawned_key-append k id sub_id [] = ground arith
spawned_key-append k id sub_id ((j, s) ∷ batch) =
    ground (arith, spawned_key-append k id sub_id batch)

pub note_spawn-HasSpawned :
    (id : String) (r : SubagentManager × Option ℕ) (b : Progress × List (String × ℕ))
    → HasSpawned b (note_spawn id r b)
note_spawn-HasSpawned id (s, some sub_id) (p, batch) f =
    (f, (λ k h. h), (λ k h. ground (arith, spawned_key-append k id sub_id batch, h)))
note_spawn-HasSpawned id (s, none) (p, batch) f = ground (arith, f)

pub note_spawn-key :
    (id k : String) (r : SubagentManager × Option ℕ) (b : Progress × List (String × ℕ))
    → (note_spawn id r b).0.any_failed ≡ false
    → (id =? k) ≡ true
    → spawned_key k (note_spawn id r b).1 ≡ true
note_spawn-key id k (s, some sub_id) (p, batch) f y =
    ground (arith, spawned_key-append k id sub_id batch, y)
note_spawn-key id k (s, none) (p, batch) f y = ground (arith, f)

module _ (label_of : PlanTask → String) (origin_channel origin_chat_id : String)
    (task_lookup : List (String × PlanTask)) where
  pub spawn_found-HasSpawned :
      (id : String) (task : Option PlanTask) (now : ℕ) (b : Progress × List (String × ℕ))
      → HasSpawned b (spawn_found label_of origin_channel origin_chat_id task_lookup id task now b)
  spawn_found-HasSpawned id none now b = λ f. (f, (λ k h. h), (λ k h. h))
  spawn_found-HasSpawned id (some task) now b =
      note_spawn-HasSpawned id
        (spawn b.0.manager (request label_of origin_channel origin_chat_id task_lookup task) now) b

  pub spawn_found-key :
      (id k : String) (task : Option PlanTask) (now : ℕ) (b : Progress × List (String × ℕ))
      → is_some task ≡ true
      → (spawn_found label_of origin_channel origin_chat_id task_lookup id task now b).0.any_failed
        ≡ false
      → (id =? k) ≡ true
      → spawned_key k
          (spawn_found label_of origin_channel origin_chat_id task_lookup id task now b).1
        ≡ true
  spawn_found-key id k none now b t f y = ground (arith, t)
  spawn_found-key id k (some task) now b t f y =
      note_spawn-key id k
        (spawn b.0.manager (request label_of origin_channel origin_chat_id task_lookup task) now) b
        f y

  pub spawn_batch-HasSpawned :
      (batch : List String) (now : ℕ) (b : Progress × List (String × ℕ))
      → HasSpawned b (spawn_batch label_of origin_channel origin_chat_id task_lookup batch now b)
  unfolding spawn_batch
  spawn_batch-HasSpawned [] now b f = (f, (λ k h. h), (λ k h. h))
  spawn_batch-HasSpawned (id ∷ batch) now b f =
      let task = Dict.get id task_lookup in
      let found = spawn_found label_of origin_channel origin_chat_id task_lookup id task now b in
      let rest = spawn_batch-HasSpawned batch now found f in
      let first = spawn_found-HasSpawned id task now b rest.0 in
      (first.0, (λ k h. rest.1 k (first.1 k h)), (λ k h. rest.2 k (first.2 k h)))

  pub spawn_batch-key :
      (batch : List String) (now : ℕ) (b : Progress × List (String × ℕ)) (k : String)
      → Knows task_lookup batch
      → (spawn_batch label_of origin_channel origin_chat_id task_lookup batch now b).0.any_failed
        ≡ false
      → contains k batch ≡ true
      → spawned_key k (spawn_batch label_of origin_channel origin_chat_id task_lookup batch now b).1
        ≡ true
  unfolding spawn_batch
  spawn_batch-key [] now b k known f h = ground (arith, h)
  spawn_batch-key (id ∷ batch) now b k known f h =
      let task = Dict.get id task_lookup in
      let found = spawn_found label_of origin_channel origin_chat_id task_lookup id task now b in
      let rest = spawn_batch-HasSpawned batch now found f in
      elim (Bool-cases (id =? k)) [
        | inl y ↦ rest.2 k (spawn_found-key id k task now b known.0 rest.0 y)
        | inr n ↦ spawn_batch-key batch now found k known.1 f (ground (arith, h, n))
      ]
