-- ===== src/Plan/Rounds.antt =====
-- How the loop over the batches ends (src/plan.rs, `topo_sort`).
use openpaw.Prelude.{
  ℕ, zero, suc, ◌+◌, ◌≤◌, ◌<◌, ◌≡◌, refl, sym, Option, some, List, [], ◌∷◌, ◌++◌, String,
  string_keyed, length, arith, length-append, ◌∙◌, ap,
}
use mathlib.Core.List.{append_assoc, append-nil}
use openpaw.Dict
use openpaw.Plan.{rounds, or_empty}
use openpaw.Plan.Times.{times, times-append, times_le-length}
use openpaw.Plan.Edges.{open_edges, between}
use openpaw.Plan.Kahn.{Accounts, process-Accounts}

abbrev pub concat : List (List String) → List String
concat [] = []
concat (b ∷ bs) = b ++ concat bs

-- Nothing in a batch has an open edge when the batches before it are done.
abbrev pub Layered : List (String × String) → List String → List (List String) → Type 0
Layered es done [] = Unit
Layered es done (b ∷ bs) =
    ((x : String) → 1 ≤ times x b → open_edges x done es ≡ 0) × Layered es (done ++ b) bs

Layered-append :
    (es : List (String × String)) (done : List String) (bs : List (List String)) (b : List String)
    → Layered es done bs
    → ((x : String) → 1 ≤ times x b → open_edges x (done ++ concat bs) es ≡ 0)
    → Layered es done (bs ++ b ∷ [])
Layered-append es done [] b l h = (λ x i. rw (sym (append-nil done)) (h x i), tt)
Layered-append es done (c ∷ bs) b l h = (
  l.0,
  Layered-append es (done ++ c) bs b l.1 (λ x i. rw (append_assoc done c (concat bs)) (h x i)),
)

concat-append : (bs : List (List String)) (b : List String) → concat (bs ++ b ∷ []) ≡ concat bs ++ b
concat-append [] b = append-nil b
concat-append (c ∷ bs) b =
    ap (λ l. c ++ l) (concat-append bs b) ∙ sym (append_assoc c (concat bs) b)

-- How the loop ends: with batches that are layered, and nothing left to do.
pub record Ends (known : List String) (es : List (String × String))
    (r : Option (List (List String) × ℕ)) : Type 0 where
  pub found : List (List String)
  pub processed : ℕ
  pub in_degree : List (String × ℕ)
  pub result : r ≡ some (found, processed)
  pub layered : Layered es [] found
  pub counted : processed ≡ length (concat found)
  pub accounts : Accounts known es (concat found) [] [] [] in_degree

-- What is placed is known, and placed once.
pub placed_within :
    (known : List String) (es : List (String × String)) (done queue : List String)
    (in_degree : List (String × ℕ)) (x : String)
    → Accounts known es done queue [] [] in_degree
    → (times x (done ++ queue) ≤ times x known) × (times x (done ++ queue) ≤ 1)
placed_within known es done queue in_degree x h = ground (arith, h x, times-append x done queue)

queue_free :
    (known : List String) (es : List (String × String)) (done queue : List String)
    (in_degree : List (String × ℕ)) (x : String)
    → Accounts known es done queue [] [] in_degree
    → 1 ≤ times x queue
    → open_edges x done es ≡ 0
queue_free known es done queue in_degree x h i = ground (arith, h x)

module _ (known : List String) (es : List (String × String))
    (dependents : List (String × List String))
    (out : (d x : String)
      → 1 ≤ times d known
      → times x (or_empty (Dict.get d dependents)) ≡ between d x es) where
  pub rounds-Ends :
      (fuel : ℕ) (queue : List String) (in_degree : List (String × ℕ))
      (batches : List (List String)) (processed : ℕ)
      → Accounts known es (concat batches) queue [] [] in_degree
      → Layered es [] batches
      → processed ≡ length (concat batches)
      → length known < fuel + length (concat batches)
      → Ends known es (rounds fuel dependents queue in_degree batches processed)
  unfolding rounds
  rounds-Ends zero queue in_degree batches processed h l n f = absurd (
      omega (
        arith,
        f,
        times_le-length (concat batches ++ queue) known
            (λ x. (placed_within known es (concat batches) queue in_degree x h).0),
        length-append (concat batches) queue,
      ))
  rounds-Ends (suc fuel) [] in_degree batches processed h l n f = record {
    found = batches;
    processed = processed;
    in_degree = in_degree;
    result = refl;
    layered = l;
    counted = n;
    accounts = h;
  }
  rounds-Ends (suc fuel) (id ∷ queue) in_degree batches processed h l n f =
      let batch = id ∷ queue in
      let (accounts, more) =
        process-Accounts known es dependents out batch (concat batches) [] in_degree processed h in
      rounds-Ends fuel _ _ (batches ++ batch ∷ []) _
        (λ x. ground (arith, accounts x, concat-append batches batch))
        (Layered-append es [] batches batch l
          (λ x i. queue_free known es (concat batches) batch in_degree x h i))
        (omega (
          arith,
          more,
          n,
          length-append (concat batches) batch,
          ap {B = ℕ} length (concat-append batches batch),
        ))
        (omega (
          arith,
          f,
          length-append (concat batches) batch,
          ap {B = ℕ} length (concat-append batches batch),
        ))
