-- ===== src/Plan/Kahn.antt =====
-- The invariant of the loops of `topo_sort` (src/plan.rs).
use openpaw.Prelude.{
  ℕ, ◌+◌, ◌-◌, ◌≤◌, ◌≡◌, sym, Option, none, some, List, [], ◌∷◌, ◌++◌, String, string_keyed, count,
  length, arith, if◌then◌else◌, ◌==◌,
}
use mathlib.Core.List.{append_assoc, append-nil}
use openpaw.Dict
use openpaw.Dict.{get-update, map_option}
use openpaw.Plan.{release, process, or_empty, is_zero}
use openpaw.Plan.Times.{times, times-append, times_self}
use openpaw.Plan.Edges.{open_edges, between, open_edges-append}

-- What the map holds for one name: `known` is how often it is a task's id, `left` how many of its
-- edges are still to be taken off, `placed` how often it was put into a batch or a queue.
abbrev Agree : Option ℕ → ℕ → ℕ → ℕ → Type 0
Agree none known left placed = (known ≡ 0) × (placed ≡ 0)
Agree (some n) known left placed = (1 ≤ known) × (n ≡ left) × (placed ≡ (if n == 0 then 1 else 0))

-- `done` is processed, `queue` is left of the batch, `next` is collected for the next batch, and the
-- edges to `due` are still to be taken off.
abbrev pub Accounts :
    List String
    → List (String × String)
    → List String
    → List String
    → List String
    → List String
    → List (String × ℕ)
    → Type 0
Accounts known es done queue next due in_degree =
    (x : String)
    → Agree (Dict.get x in_degree) (times x known) (open_edges x done es + times x due)
        (times x done + times x queue + times x next)

module _ (known : List String) (es : List (String × String)) where
  release_step :
      (done queue next due : List String) (dep : String) (in_degree : List (String × ℕ))
      → Accounts known es done queue next (dep ∷ due) in_degree
      → let in_degree' = Dict.update dep (λ deg. deg - 1) in_degree in
        Accounts known es done queue
          (next ++ (if is_zero (Dict.get dep in_degree') then dep ∷ [] else []))
          due
          in_degree'
  release_step done queue next due dep in_degree h x =
      let in_degree' = Dict.update dep (λ deg. deg - 1) in_degree in
      let more = if is_zero (Dict.get dep in_degree') then dep ∷ [] else [] in
      ground (
        arith,
        h x,
        get-update dep x (λ deg. deg - 1) in_degree,
        string_keyed.beq_iff dep x,
        times-append x next more,
      )

  release-Accounts :
      (done queue due : List String) (in_degree : List (String × ℕ)) (next : List String)
      → Accounts known es done queue next due in_degree
      → let (in_degree', next') = release due in_degree next in
        Accounts known es done queue next' [] in_degree'
  unfolding release
  release-Accounts done queue [] in_degree next h = h
  release-Accounts done queue (dep ∷ due) in_degree next h =
      release-Accounts done queue due _ _ (release_step done queue next due dep in_degree h)

  -- One task of the batch.
  process_step :
      (done queue next due : List String) (id : String) (in_degree : List (String × ℕ))
      → ((x : String) → times x due ≡ between id x es)
      → Accounts known es done (id ∷ queue) next [] in_degree
      → Accounts known es (done ++ id ∷ []) queue next due in_degree
  process_step done queue next due id in_degree out h x =
      let none_done : times id done ≡ 0 = ground (arith, h id, times_self id queue) in
      ground
        (arith, h x, out x, open_edges-append x id done es none_done, times-append x done (id ∷ []))

  module _ (dependents : List (String × List String))
      (out : (d x : String)
        → 1 ≤ times d known
        → times x (or_empty (Dict.get d dependents)) ≡ between d x es) where
    pub process-Accounts :
        (queue done next : List String) (in_degree : List (String × ℕ)) (processed : ℕ)
        → Accounts known es done queue next [] in_degree
        → let (in_degree', next', processed') = process dependents queue in_degree next processed in
          Accounts known es (done ++ queue) [] next' [] in_degree'
          × (processed' ≡ processed + length queue)
    unfolding process
    process-Accounts [] done next in_degree processed h = (rw append-nil h, omega arith)
    process-Accounts (id ∷ queue) done next in_degree processed h =
        let deps = or_empty (Dict.get id dependents) in
        let is_known : 1 ≤ times id known = ground (arith, h id, times_self id queue) in
        let placed = process_step done queue next deps id in_degree (λ x. out id x is_known) h in
        let released = release-Accounts (done ++ id ∷ []) queue deps in_degree next placed in
        let (rest, count) = process-Accounts queue (done ++ id ∷ []) _ _ (processed + 1) released in
        (rw (sym (append_assoc done (id ∷ []) queue)) rest, omega (arith, count))
