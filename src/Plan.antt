-- ===== src/Plan.antt =====
-- The order of the tasks of a plan (src/plan.rs, `PlanManager::topo_sort`).
-- A task is known by its id. The order in which a hash map is iterated is not specified: it is the
-- parameter `shuffle` of `topo_sort`. The loop runs on fuel.
mod Times
mod Edges
mod Keys
mod Kahn
pub mod Rounds
pub mod Order
pub mod Acyclic
pub mod Execute
pub mod Review
pub mod Late
pub mod Ends
mod Outcomes
mod Spawned
pub mod Success
mod Tests
use openpaw.Prelude.{
  ℕ, zero, suc, ◌+◌, ◌-◌, Bool, true, false, Option, none, some, List, [], ◌∷◌, ◌++◌, map, String,
  string_keyed, ◌=?◌, any, length, ◌==◌, if◌then◌else◌,
}
use openpaw.Dict

pub record PlanTask : Type 0 where
  pub id : String
  pub description : String
  pub depends_on : List String
  pub agent_id : Option String

pub data TopoResult : Type 0 where
  sorted : List (List String) → TopoResult
  unknown_dependency : String → String → TopoResult
  cycle : TopoResult

abbrev pub ids : List PlanTask → List String
ids [] = []
ids (t ∷ ts) = t.id ∷ ids ts

abbrev pub contains : String → List String → Bool
contains x xs = any (λ y. y =? x) xs

-- The first dependency that is no task's id.
unfoldable pub unknown_in : List String → List String → Option String
unknown_in known [] = none
unknown_in known (dep ∷ deps) = if contains dep known then unknown_in known deps else some dep

abbrev blame : String → Option String → Option (String × String) → Option (String × String)
blame task none rest = rest
blame task (some dep) rest = some (task, dep)

unfoldable pub first_unknown : List String → List PlanTask → Option (String × String)
first_unknown known [] = none
first_unknown known (t ∷ ts) = blame t.id (unknown_in known t.depends_on) (first_unknown known ts)

pub record Graph : Type 0 where
  pub in_degree : List (String × ℕ)
  pub dependents : List (String × List String)

-- The two maps before the edges are counted.
unfoldable pub no_edges : List PlanTask → Graph → Graph
no_edges [] g = g
no_edges (t ∷ ts) g = no_edges ts (record {
  in_degree = Dict.insert t.id 0 g.in_degree;
  dependents = Dict.insert t.id [] g.dependents;
})

unfoldable pub link_deps : String → List String → Graph → Graph
link_deps id [] g = g
link_deps id (dep ∷ deps) g = link_deps id deps (record {
  in_degree = Dict.update id (λ n. n + 1) g.in_degree;
  dependents = Dict.update dep (λ l. l ++ id ∷ []) g.dependents;
})

unfoldable pub link : List PlanTask → Graph → Graph
link [] g = g
link (t ∷ ts) g = link ts (link_deps t.id t.depends_on g)

-- The ids of degree 0.
abbrev pub free_ids : List (String × ℕ) → List String
free_ids [] = []
free_ids ((id, deg) ∷ m) = if deg == 0 then id ∷ free_ids m else free_ids m

abbrev pub is_zero : Option ℕ → Bool
is_zero none = false
is_zero (some n) = n == 0

-- The innermost loop: the dependents of a task that was processed lose an edge.
unfoldable pub release :
    List String → List (String × ℕ) → List String → List (String × ℕ) × List String
release [] in_degree next_queue = (in_degree, next_queue)
release (dep ∷ deps) in_degree next_queue =
    let in_degree' = Dict.update dep (λ deg. deg - 1) in_degree in
    release deps in_degree'
      (next_queue ++ (if is_zero (Dict.get dep in_degree') then dep ∷ [] else []))

abbrev pub or_empty : Option (List String) → List String
or_empty none = []
or_empty (some l) = l

-- The loop over the tasks of a batch; the number is `processed`.
unfoldable pub process :
    List (String × List String)
    → List String
    → List (String × ℕ)
    → List String
    → ℕ
    → List (String × ℕ) × List String × ℕ
process dependents [] in_degree next_queue processed = (in_degree, next_queue, processed)
process dependents (id ∷ queue) in_degree next_queue processed =
    let (in_degree', next_queue') =
      release (or_empty (Dict.get id dependents)) in_degree next_queue in
    process dependents queue in_degree' next_queue' (processed + 1)

-- The loop over the batches: `none` is out of fuel.
unfoldable pub rounds :
    ℕ
    → List (String × List String)
    → List String
    → List (String × ℕ)
    → List (List String)
    → ℕ
    → Option (List (List String) × ℕ)
rounds zero dependents queue in_degree batches processed = none
rounds (suc fuel) dependents [] in_degree batches processed = some (batches, processed)
rounds (suc fuel) dependents (id ∷ queue) in_degree batches processed =
    let (in_degree', next_queue, processed') =
      process dependents (id ∷ queue) in_degree [] processed in
    rounds fuel dependents next_queue in_degree' (batches ++ (id ∷ queue) ∷ []) processed'

abbrev pub graph : List PlanTask → Graph
graph tasks = link tasks (no_edges tasks (record { in_degree = []; dependents = [] }))

-- What is returned for the batches found.
abbrev pub judge : ℕ → Option (List (List String) × ℕ) → Option TopoResult
judge total none = none
judge total (some (found, processed)) = some (if processed == total then sorted found else cycle)

abbrev pub sort_known : (List String → List String) → List PlanTask → Option TopoResult
sort_known shuffle tasks =
    let g = graph tasks in
    judge (length tasks)
      (rounds (suc (length tasks)) g.dependents (shuffle (free_ids g.in_degree)) g.in_degree [] 0)

unfoldable pub topo_sort : (List String → List String) → List PlanTask → Option TopoResult
topo_sort shuffle tasks = elim (first_unknown (ids tasks) tasks) [
  | some (task, dep) ↦ some (unknown_dependency task dep)
  | none ↦ sort_known shuffle tasks
]
