-- ===== src/Plan/Edges.antt =====
-- The dependencies of a plan as edges, and what the two maps hold of them (src/plan.rs).
use openpaw.Prelude.{
  ℕ, ◌+◌, ◌≡◌, refl, true, ◌&&◌, none, some, List, [], ◌∷◌, ◌++◌, String, string_keyed, ◌=?◌, count,
  count-append, arith, if◌then◌else◌, ◌==◌, is_some,
}
use openpaw.Dict
use openpaw.Dict.{get-insert, get-update, map_option}
use openpaw.Plan.{PlanTask, Graph, ids, no_edges, link_deps, link, graph, or_empty, contains}
use openpaw.Plan.Times.{times, times-append}

-- An edge is a dependency and the task that has it.
abbrev pub edges_to : String → List String → List (String × String)
edges_to id [] = []
edges_to id (dep ∷ deps) = (dep, id) ∷ edges_to id deps

abbrev pub edges : List PlanTask → List (String × String)
edges [] = []
edges (t ∷ ts) = edges_to t.id t.depends_on ++ edges ts

-- The edges to a task from tasks that are not done.
abbrev pub open_edges : String → List String → List (String × String) → ℕ
open_edges x done = count (λ e. (e.1 =? x) && (times e.0 done == 0))

-- The edges between two tasks.
abbrev pub between : String → String → List (String × String) → ℕ
between d x = count (λ e. (e.0 =? d) && (e.1 =? x))

-- One more task is done.
pub open_edges-append :
    (x d : String) (done : List String) (es : List (String × String))
    → times d done ≡ 0
    → open_edges x done es ≡ open_edges x (done ++ d ∷ []) es + between d x es
open_edges-append x d done [] h = refl
open_edges-append x d done ((c, y) ∷ es) h = ground (
  arith,
  open_edges-append x d done es h,
  times-append c done (d ∷ []),
  string_keyed.beq_iff c d,
  string_keyed.beq_iff d c,
)

abbrev plus : ℕ → ℕ → ℕ
plus k n = n + k

link_deps-in_degree :
    (id x : String) (deps : List String) (g : Graph)
    → Dict.get x (link_deps id deps g).in_degree
      ≡ map_option (plus (open_edges x [] (edges_to id deps))) (Dict.get x g.in_degree)
unfolding link_deps
link_deps-in_degree id x [] g = ground arith
link_deps-in_degree id x (dep ∷ deps) g =
    let g' : Graph = record {
      in_degree = Dict.update id (λ n. n + 1) g.in_degree;
      dependents = Dict.update dep (λ l. l ++ id ∷ []) g.dependents;
    } in
    ground (arith, link_deps-in_degree id x deps g', get-update id x (λ n. n + 1) g.in_degree)

link-in_degree :
    (x : String) (ts : List PlanTask) (g : Graph)
    → Dict.get x (link ts g).in_degree
      ≡ map_option (plus (open_edges x [] (edges ts))) (Dict.get x g.in_degree)
unfolding link
link-in_degree x [] g = ground arith
link-in_degree x (t ∷ ts) g = ground (
  arith,
  link-in_degree x ts (link_deps t.id t.depends_on g),
  link_deps-in_degree t.id x t.depends_on g,
  count-append (λ e. (e.1 =? x) && (times e.0 [] == 0)) (edges_to t.id t.depends_on) (edges ts),
)

-- How often `x` stands among the dependents of `d`.
abbrev dependent_times : String → String → Graph → ℕ
dependent_times d x g = times x (or_empty (Dict.get d g.dependents))

link_deps-dependents :
    (id d x : String) (deps : List String) (g : Graph)
    → is_some (Dict.get d g.dependents) ≡ true
    → (is_some (Dict.get d (link_deps id deps g).dependents) ≡ true)
      × (dependent_times d x (link_deps id deps g)
          ≡ dependent_times d x g + between d x (edges_to id deps))
unfolding link_deps
link_deps-dependents id d x [] g h = (h, omega arith)
link_deps-dependents id d x (dep ∷ deps) g h =
    let g' : Graph = record {
      in_degree = Dict.update id (λ n. n + 1) g.in_degree;
      dependents = Dict.update dep (λ l. l ++ id ∷ []) g.dependents;
    } in
    let here = get-update dep d (λ l. l ++ id ∷ []) g.dependents in
    let there : is_some (Dict.get d g'.dependents) ≡ true = ground (arith, here) in
    ground (
      arith,
      link_deps-dependents id d x deps g' there,
      here,
      times-append x (or_empty (Dict.get d g.dependents)) (id ∷ []),
    )

link-dependents :
    (d x : String) (ts : List PlanTask) (g : Graph)
    → is_some (Dict.get d g.dependents) ≡ true
    → dependent_times d x (link ts g) ≡ dependent_times d x g + between d x (edges ts)
unfolding link
link-dependents d x [] g h = omega arith
link-dependents d x (t ∷ ts) g h =
    let (there, first) = link_deps-dependents t.id d x t.depends_on g h in
    omega (
      arith,
      first,
      link-dependents d x ts (link_deps t.id t.depends_on g) there,
      count-append (λ e. (e.0 =? d) && (e.1 =? x)) (edges_to t.id t.depends_on) (edges ts),
    )

no_edges-in_degree :
    (x : String) (ts : List PlanTask) (g : Graph)
    → Dict.get x (no_edges ts g).in_degree
      ≡ (if contains x (ids ts) then some 0 else Dict.get x g.in_degree)
unfolding no_edges
no_edges-in_degree x [] g = refl
no_edges-in_degree x (t ∷ ts) g = ground (
  arith,
  no_edges-in_degree x ts (record {
    in_degree = Dict.insert t.id 0 g.in_degree;
    dependents = Dict.insert t.id [] g.dependents;
  }),
  get-insert t.id x 0 g.in_degree,
)

no_edges-dependents :
    (x : String) (ts : List PlanTask) (g : Graph)
    → Dict.get x (no_edges ts g).dependents
      ≡ (if contains x (ids ts) then some [] else Dict.get x g.dependents)
unfolding no_edges
no_edges-dependents x [] g = refl
no_edges-dependents x (t ∷ ts) g = ground (
  arith,
  no_edges-dependents x ts (record {
    in_degree = Dict.insert t.id 0 g.in_degree;
    dependents = Dict.insert t.id [] g.dependents;
  }),
  get-insert t.id x [] g.dependents,
)

abbrev empty_graph : Graph
empty_graph = record { in_degree = []; dependents = [] }

-- The degree of a task is the number of its dependencies; a name that is no task's id has none.
pub graph-in_degree :
    (x : String) (ts : List PlanTask)
    → Dict.get x (graph ts).in_degree
      ≡ (if contains x (ids ts) then some (open_edges x [] (edges ts)) else none)
graph-in_degree x ts =
    ground
      (arith, link-in_degree x ts (no_edges ts empty_graph), no_edges-in_degree x ts empty_graph)

-- The dependents of a task are the tasks that name it.
pub graph-dependents :
    (d x : String) (ts : List PlanTask)
    → contains d (ids ts) ≡ true
    → times x (or_empty (Dict.get d (graph ts).dependents)) ≡ between d x (edges ts)
graph-dependents d x ts h =
    let start = no_edges-dependents d ts empty_graph in
    ground (arith, link-dependents d x ts (no_edges ts empty_graph), start)
