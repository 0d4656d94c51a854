-- ===== src/Plan/Keys.antt =====
-- The keys of the map of degrees are distinct (src/plan.rs), so the first queue holds each task once.
use openpaw.Prelude.{
  ℕ, ◌+◌, ◌≤◌, ◌≡◌, refl, true, false, List, [], ◌∷◌, ◌++◌, String, string_keyed, ◌=?◌, count,
  arith, if◌then◌else◌, ◌==◌, is_some,
}
use openpaw.Dict
use openpaw.Plan.{PlanTask, Graph, no_edges, link_deps, link, graph, free_ids, is_zero}
use openpaw.Plan.Times.{times}

abbrev key_times {ℓ} : {V : Type ℓ} → String → List (String × V) → ℕ
key_times x = count (λ e. e.0 =? x)

key_times-get {ℓ} :
    {V : Type ℓ} (x : String) (m : List (String × V))
    → is_some (Dict.get x m) ≡ (if key_times x m == 0 then false else true)
key_times-get x [] = ground arith
key_times-get x ((k, v) ∷ m) = ground (arith, key_times-get x m)

key_times-other {ℓ} :
    {V : Type ℓ} (x k : String) (v : V) (m : List (String × V))
    → (k =? x) ≡ false
    → key_times x (Dict.insert k v m) ≡ key_times x m
key_times-other x k v [] h = ground arith
key_times-other x k v ((j, w) ∷ m) h = ground (
  arith,
  key_times-other x k v m,
  string_keyed.beq_iff j k,
  string_keyed.beq_iff k x,
  string_keyed.beq_iff j x,
)

key_times-insert {ℓ} :
    {V : Type ℓ} (x k : String) (v : V) (m : List (String × V))
    → key_times x m ≤ 1
    → key_times x (Dict.insert k v m) ≤ 1
key_times-insert x k v [] h = ground arith
key_times-insert x k v ((j, w) ∷ m) h = ground (
  arith,
  key_times-insert x k v m,
  string_keyed.beq_iff j k,
  string_keyed.beq_iff k x,
  string_keyed.beq_iff j x,
  key_times-other x k v m,
)

key_times-update {ℓ} :
    {V : Type ℓ} (x k : String) (f : V → V) (m : List (String × V))
    → key_times x (Dict.update k f m) ≡ key_times x m
key_times-update x k f [] = refl
key_times-update x k f ((j, w) ∷ m) = ground (arith, key_times-update x k f m)

no_edges-keys :
    (x : String) (ts : List PlanTask) (g : Graph)
    → key_times x g.in_degree ≤ 1
    → key_times x (no_edges ts g).in_degree ≤ 1
unfolding no_edges
no_edges-keys x [] g h = h
no_edges-keys x (t ∷ ts) g h = no_edges-keys x ts _ (key_times-insert x t.id 0 g.in_degree h)

link_deps-keys :
    (id x : String) (deps : List String) (g : Graph)
    → key_times x (link_deps id deps g).in_degree ≡ key_times x g.in_degree
unfolding link_deps
link_deps-keys id x [] g = refl
link_deps-keys id x (dep ∷ deps) g = omega (
  arith,
  key_times-update x id (λ n. n + 1) g.in_degree,
  link_deps-keys id x deps (record {
    in_degree = Dict.update id (λ n. n + 1) g.in_degree;
    dependents = Dict.update dep (λ l. l ++ id ∷ []) g.dependents;
  }),
)

link-keys :
    (x : String) (ts : List PlanTask) (g : Graph)
    → key_times x (link ts g).in_degree ≡ key_times x g.in_degree
unfolding link
link-keys x [] g = refl
link-keys x (t ∷ ts) g =
    omega
      (arith, link_deps-keys t.id x t.depends_on g, link-keys x ts (link_deps t.id t.depends_on g))

free_none : (x : String) (m : List (String × ℕ)) → key_times x m ≡ 0 → times x (free_ids m) ≡ 0
free_none x [] h = refl
free_none x ((k, n) ∷ m) h = ground (arith, free_none x m)

free_once :
    (x : String) (m : List (String × ℕ))
    → key_times x m ≤ 1
    → times x (free_ids m) ≡ (if is_zero (Dict.get x m) then 1 else 0)
free_once x [] h = refl
free_once x ((k, n) ∷ m) h = ground (arith, free_once x m, free_none x m)

-- The first queue holds a task once if it has no dependency, and not otherwise.
pub free_ids-times :
    (x : String) (ts : List PlanTask)
    → times x (free_ids (graph ts).in_degree)
      ≡ (if is_zero (Dict.get x (graph ts).in_degree) then 1 else 0)
free_ids-times x ts =
    let start : Graph = record { in_degree = []; dependents = [] } in
    free_once x (graph ts).in_degree
      (omega (arith, link-keys x ts (no_edges ts start), no_edges-keys x ts start (omega arith)))
