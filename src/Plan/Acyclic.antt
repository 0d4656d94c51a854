-- ===== src/Plan/Acyclic.antt =====
-- Every plan without a cycle is sorted, and what the errors say (src/plan.rs, `topo_sort`).
use openpaw.Prelude.{
  ℕ, zero, suc, ◌≤◌, ◌<◌, ◌≡◌, refl, true, false, ◌&&◌, none, some, List, [], ◌∷◌, ◌++◌, String,
  string_keyed, ◌=?◌, count-append, length, arith, if◌then◌else◌, ◌==◌, Option-cases, Bool-cases,
  inl, inr,
}
use mathlib.Core.List.{append-nil}
use openpaw.Plan.{
  PlanTask, TopoResult, sorted, cycle, unknown_dependency, ids, contains, topo_sort, first_unknown,
  unknown_in,
}
use openpaw.Plan.Times.{times, times_le-length, contains-times}
use openpaw.Plan.Edges.{edges_to, edges, open_edges, between}
use openpaw.Plan.Kahn.{Accounts}
use openpaw.Plan.Rounds.{concat, placed_within}
use openpaw.Plan.Order.{IsShuffle, depends, sort_known-Ends, length-ids}

unknown_in-none :
    (known deps : List String)
    → ((d : String) → contains d deps ≡ true → contains d known ≡ true)
    → unknown_in known deps ≡ none
unfolding unknown_in
unknown_in-none known [] h = refl
unknown_in-none known (dep ∷ deps) h = ground (
  arith,
  h dep,
  string_keyed.beq_iff dep dep,
  unknown_in-none known deps (λ d i. h d (ground (arith))),
)

first_unknown-none :
    (known : List String) (tasks : List PlanTask)
    → ((x d : String) → depends tasks x d ≡ true → contains d known ≡ true)
    → first_unknown known tasks ≡ none
unfolding first_unknown
first_unknown-none known [] h = refl
first_unknown-none known (t ∷ tasks) h = ground (
  arith,
  unknown_in-none known t.depends_on
      (λ d i. h t.id d (ground (arith, string_keyed.beq_iff t.id t.id))),
  first_unknown-none known tasks (λ x d i. h x d (ground arith)),
)

unknown_in-some :
    (known deps : List String) (d : String)
    → unknown_in known deps ≡ some d
    → (contains d deps ≡ true) × (contains d known ≡ false)
unfolding unknown_in
unknown_in-some known [] d h = absurd (ground arith)
unknown_in-some known (dep ∷ deps) d h =
    ground (arith, string_keyed.beq_iff dep d, unknown_in-some known deps d)

first_unknown-some :
    (known : List String) (tasks : List PlanTask) (x d : String)
    → first_unknown known tasks ≡ some (x, d)
    → (depends tasks x d ≡ true) × (contains d known ≡ false)
unfolding first_unknown
first_unknown-some known [] x d h = absurd (ground arith)
first_unknown-some known (t ∷ tasks) x d h = elim (Option-cases (unknown_in known t.depends_on)) [
  | inl e ↦ ground (arith, first_unknown-some known tasks x d)
  | inr (dep, e) ↦
      ground (arith, unknown_in-some known t.depends_on dep e, string_keyed.beq_iff t.id x)
]

-- An open edge comes from a task that is not done.
open_edges-from :
    (x : String) (done : List String) (es : List (String × String))
    → 1 ≤ open_edges x done es
    → (d : String) × (1 ≤ between d x es) × (times d done ≡ 0)
open_edges-from x done [] h = absurd (ground arith)
open_edges-from x done ((c, y) ∷ es) h = elim (Bool-cases ((y =? x) && (times c done == 0))) [
  | inl e ↦ (c, ground (arith, string_keyed.beq_iff c c), ground arith)
  | inr e ↦ let (d, b, n) = open_edges-from x done es (ground arith) in (d, ground arith, n)
]

edges_to-depends :
    (x d id : String) (deps : List String)
    → 1 ≤ between d x (edges_to id deps)
    → ((id =? x) ≡ true) × (contains d deps ≡ true)
edges_to-depends x d id [] h = absurd (ground arith)
edges_to-depends x d id (dep ∷ deps) h = ground (arith, edges_to-depends x d id deps)

between-depends :
    (x d : String) (tasks : List PlanTask)
    → 1 ≤ between d x (edges tasks)
    → depends tasks x d ≡ true
between-depends x d [] h = absurd (ground arith)
between-depends x d (t ∷ tasks) h = ground (
  arith,
  between-depends x d tasks,
  edges_to-depends x d t.id t.depends_on,
  count-append (λ e. (e.0 =? d) && (e.1 =? x)) (edges_to t.id t.depends_on) (edges tasks),
)

module _ (tasks : List PlanTask) (rank : String → ℕ)
    (known : (x d : String) → depends tasks x d ≡ true → contains d (ids tasks) ≡ true)
    (down : (x d : String) → depends tasks x d ≡ true → rank d < rank x) (done : List String)
    (in_degree : List (String × ℕ))
    (accounts : Accounts (ids tasks) (edges tasks) done [] [] [] in_degree) where
  -- Everything of a rank below `n` is done.
  all_done : (n : ℕ) (x : String) → rank x < n → 1 ≤ times x (ids tasks) → 1 ≤ times x done
  all_done zero x below i = absurd (omega arith)
  all_done (suc n) x below i = elim (Bool-cases (open_edges x done (edges tasks) == 0)) [
    | inl e ↦ ground (arith, accounts x)
    | inr e ↦
        let (d, b, none_done) = open_edges-from x done (edges tasks) (ground arith) in
        let has = between-depends x d tasks b in
        absurd (
          omega (
            arith,
            none_done,
            all_done n d (omega (arith, down x d has, below))
                (ground (arith, known x d has, contains-times d (ids tasks))),
          ))
  ]

  pub done_full : ((x : String) → times x (ids tasks) ≤ 1) → length tasks ≤ length done
  done_full unique = omega (
    arith,
    length-ids tasks,
    times_le-length (ids tasks) done
        (λ x. ground (arith, unique x, all_done (suc (rank x)) x (omega arith))),
  )

-- A plan whose ids are distinct, whose dependencies are ids of the plan and that has no cycle (each
-- task ranks above its dependencies) is sorted into batches, in whatever order the maps are iterated.
pub topo_sort-acyclic :
    (shuffle : List String → List String) (tasks : List PlanTask) (rank : String → ℕ)
    → IsShuffle shuffle
    → ((x : String) → times x (ids tasks) ≤ 1)
    → ((x d : String) → depends tasks x d ≡ true → contains d (ids tasks) ≡ true)
    → ((x d : String) → depends tasks x d ≡ true → rank d < rank x)
    → (bs : List (List String)) × (topo_sort shuffle tasks ≡ some (sorted bs))
unfolding topo_sort
topo_sort-acyclic shuffle tasks rank h unique known down =
    let r = sort_known-Ends shuffle tasks h in
    let full = done_full tasks rank known down (concat r.found) r.in_degree r.accounts unique in
    let within = times_le-length (concat r.found ++ []) (ids tasks) (λ x.
      (placed_within (ids tasks) (edges tasks) (concat r.found) [] r.in_degree x r.accounts).0) in
    (
      r.found,
      ground (
        arith,
        r.result,
        r.counted,
        full,
        within,
        append-nil (concat r.found),
        length-ids tasks,
        first_unknown-none (ids tasks) tasks known,
      ),
    )

-- `topo_sort` always returns, and when it names an unknown dependency, the task that it names has that
-- dependency and no task has that id.
pub topo_sort-total :
    (shuffle : List String → List String) (tasks : List PlanTask)
    → IsShuffle shuffle
    → (r : TopoResult) × (topo_sort shuffle tasks ≡ some r)
      × ((x d : String)
          → r ≡ unknown_dependency x d
          → (depends tasks x d ≡ true) × (contains d (ids tasks) ≡ false))
unfolding topo_sort
topo_sort-total shuffle tasks h = elim (Option-cases (first_unknown (ids tasks) tasks)) [
  | inl e ↦
      let r = sort_known-Ends shuffle tasks h in
      let result = if r.processed == length tasks then sorted r.found else cycle in
      (result, ground (arith, e, r.result), λ x d i. absurd (ground (arith)))
  | inr ((task, dep), e) ↦ (
    unknown_dependency task dep,
    ground (arith, e),
    λ x d i. ground (arith, first_unknown-some (ids tasks) tasks task dep e),
  )
]
