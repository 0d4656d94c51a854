-- ===== src/Plan/Order.antt =====
-- The batches of a plan respect its dependencies (src/plan.rs, `topo_sort`).
use openpaw.Prelude.{
  ℕ, suc, ◌≤◌, ◌<◌, ◌≡◌, refl, sym, Bool, true, ◌&&◌, some, List, [], ◌∷◌, ◌++◌, String,
  string_keyed, ◌=?◌, any, count-append, length, arith, if◌then◌else◌,
}
use mathlib.Core.List.{append-nil}
use openpaw.Plan.{PlanTask, sorted, ids, contains, rounds, free_ids, graph, topo_sort}
use openpaw.Plan.Times.{times, times-append, times_le-times, contains-times}
use openpaw.Plan.Edges.{edges_to, edges, open_edges, between, graph-in_degree, graph-dependents}
use openpaw.Plan.Keys.{free_ids-times}
use openpaw.Plan.Kahn.{Accounts}
use openpaw.Plan.Rounds.{concat, Layered, Ends, placed_within, rounds-Ends}

-- Whether a task has the id `x` and names `d` among its dependencies.
abbrev pub depends : List PlanTask → String → String → Bool
depends tasks x d = any (λ t. (PlanTask.id t =? x) && contains d (PlanTask.depends_on t)) tasks

-- The number of the batch that a task stands in.
abbrev pub batch_of : String → List (List String) → ℕ
batch_of x [] = 0
batch_of x (b ∷ bs) = if contains x b then 0 else suc (batch_of x bs)

-- A map of hashes is iterated in some order: nothing is lost and nothing comes twice.
abbrev pub IsShuffle : (List String → List String) → Type 0
IsShuffle shuffle = (x : String) (xs : List String) → times x (shuffle xs) ≡ times x xs

start-Accounts :
    (shuffle : List String → List String) (tasks : List PlanTask)
    → IsShuffle shuffle
    → Accounts
        (ids tasks)
        (edges tasks)
        []
        (shuffle (free_ids (graph tasks).in_degree))
        []
        []
        (graph tasks).in_degree
start-Accounts shuffle tasks h x = ground (
  arith,
  h x (free_ids (graph tasks).in_degree),
  free_ids-times x tasks,
  graph-in_degree x tasks,
  contains-times x (ids tasks),
)

pub length-ids : (tasks : List PlanTask) → length (ids tasks) ≡ length tasks
length-ids [] = refl
length-ids (t ∷ tasks) = omega (arith, length-ids tasks)

pub sort_known-Ends :
    (shuffle : List String → List String) (tasks : List PlanTask)
    → IsShuffle shuffle
    → Ends (ids tasks) (edges tasks) (
        rounds
          (suc (length tasks))
          (graph tasks).dependents
          (shuffle (free_ids (graph tasks).in_degree))
          (graph tasks).in_degree
          []
          0)
sort_known-Ends shuffle tasks h =
    rounds-Ends (ids tasks) (edges tasks) (graph tasks).dependents
      (λ d x i. graph-dependents d x tasks (ground (arith, contains-times d (ids tasks))))
      (suc (length tasks)) (shuffle (free_ids (graph tasks).in_degree)) (graph tasks).in_degree [] 0
      (start-Accounts shuffle tasks h) tt refl (omega (arith, length-ids tasks))

edges_to-between :
    (x d id : String) (deps : List String)
    → (id =? x) ≡ true
    → contains d deps ≡ true
    → 1 ≤ between d x (edges_to id deps)
edges_to-between x d id [] i h = absurd (ground arith)
edges_to-between x d id (dep ∷ deps) i h = ground (arith, edges_to-between x d id deps i)

depends-between :
    (x d : String) (tasks : List PlanTask)
    → depends tasks x d ≡ true
    → 1 ≤ between d x (edges tasks)
depends-between x d [] h = absurd (ground arith)
depends-between x d (t ∷ tasks) h = ground (
  arith,
  depends-between x d tasks,
  edges_to-between x d t.id t.depends_on,
  count-append (λ e. (e.0 =? d) && (e.1 =? x)) (edges_to t.id t.depends_on) (edges tasks),
)

between-open_edges :
    (x d : String) (done : List String) (es : List (String × String))
    → times d done ≡ 0
    → 1 ≤ between d x es
    → 1 ≤ open_edges x done es
between-open_edges x d done [] h i = i
between-open_edges x d done ((c, y) ∷ es) h i =
    ground (arith, between-open_edges x d done es h, string_keyed.beq_iff c d)

depends-ids :
    (x d : String) (tasks : List PlanTask) → depends tasks x d ≡ true → 1 ≤ times x (ids tasks)
depends-ids x d [] h = absurd (ground arith)
depends-ids x d (t ∷ tasks) h = ground (arith, depends-ids x d tasks)

-- In layered batches a task comes after what it depends on.
Layered-batch_of :
    (x d : String) (es : List (String × String)) (done : List String) (bs : List (List String))
    → Layered es done bs
    → 1 ≤ between d x es
    → times d done ≡ 0
    → 1 ≤ times x (concat bs)
    → batch_of d bs < batch_of x bs
Layered-batch_of x d es done [] l e h i = absurd (omega (arith, i))
Layered-batch_of x d es done (b ∷ bs) l e h i = ground (
  arith,
  l.0 x,
  between-open_edges x d done es h e,
  contains-times x b,
  contains-times d b,
  times-append x b (concat bs),
  times-append d done b,
  Layered-batch_of x d es (done ++ b) bs l.1 e,
)

-- What a sorted plan says about the loop.
sorted_inv :
    (shuffle : List String → List String) (tasks : List PlanTask) (bs : List (List String))
    → IsShuffle shuffle
    → topo_sort shuffle tasks ≡ some (sorted bs)
    → Layered (edges tasks) [] bs
      × (length (concat bs) ≡ length tasks)
      × ((x : String) → (times x (concat bs) ≤ times x (ids tasks)) × (times x (concat bs) ≤ 1))
unfolding topo_sort
sorted_inv shuffle tasks bs h e =
    let r = sort_known-Ends shuffle tasks h in
    let same : (r.found ≡ bs) × (r.processed ≡ length tasks) = ground (arith, r.result) in
    (
      rw (sym same.0) r.layered,
      ground (arith, same, r.counted),
      λ x. ground (
        arith,
        same,
        placed_within (ids tasks) (edges tasks) (concat r.found) [] r.in_degree x r.accounts,
        append-nil (concat r.found),
      ),
    )

-- When `topo_sort` returns batches, in whatever order the maps are iterated, every task stands in them
-- exactly once, the ids are distinct, and a task stands in a later batch than each of its dependencies.
pub topo_sort-sorted :
    (shuffle : List String → List String) (tasks : List PlanTask) (bs : List (List String))
    (x d : String)
    → IsShuffle shuffle
    → topo_sort shuffle tasks ≡ some (sorted bs)
    → (times x (concat bs) ≡ times x (ids tasks))
      × (times x (ids tasks) ≤ 1)
      × (depends tasks x d ≡ true → batch_of d bs < batch_of x bs)
topo_sort-sorted shuffle tasks bs x d h e =
    let (layered, full, within) = sorted_inv shuffle tasks bs h e in
    let same =
      times_le-times (concat bs) (ids tasks) x (λ z. (within z).0)
        (omega (arith, full, length-ids tasks)) in
    (
      same,
      omega (arith, same, (within x).1),
      λ i.
          Layered-batch_of x d (edges tasks) [] bs layered (depends-between x d tasks i) refl
            (omega (arith, same, depends-ids x d tasks i)),
    )
