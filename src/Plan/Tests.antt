-- ===== src/Plan/Tests.antt =====
-- Plans sorted (src/plan.rs), and the theorems at them.
use openpaw.Prelude.{
  ℕ, ◌+◌, ◌≤◌, ◌<◌, ◌≡◌, ◌≢◌, refl, true, false, none, some, Option, List, [], ◌∷◌, String,
  string_keyed, ◌=?◌, arith, zero, suc, length, is_some, if◌then◌else◌,
}
use openpaw.Plan.{
  PlanTask, TopoResult, sorted, unknown_dependency, cycle, ids, contains, unknown_in, first_unknown,
  no_edges, link_deps, link, release, process, rounds, topo_sort,
}
use openpaw.Dict
use openpaw.Subagent.{SubagentManager, completed}
use openpaw.Subagent.Launch.{new, running_count, launch_task_locked, enqueue, spawn}
use openpaw.Subagent.Drain.{check_pop, is_still_queued, promote, drain, drain_pending}
use openpaw.Subagent.Ops.{
  completes, response, finish_found, complete, cancel_in, cancel_task, get_task_status,
  get_task_result, run,
}
use openpaw.Subagent.Ops as Ops
use openpaw.Plan.Execute.{
  Pause, PlanExecution, spawn_batch, all_done, record_outcomes, cancel_open, poll, run_batches,
}
use openpaw.Plan.Review.{poll_review, finalize, run_plan, start_plan}
use openpaw.Plan.Success.{run_plan-succeeds}
use openpaw.Plan.Late.{IsSpaced}
use openpaw.Plan.Ends.{run_plan-ends}
use openpaw.Plan.Times.{times}
use openpaw.Plan.Rounds.{concat}
use openpaw.Plan.Order.{depends, batch_of, topo_sort-sorted}
use openpaw.Plan.Acyclic.{topo_sort-acyclic, topo_sort-total}

program : Unit {0}
unfolding unknown_in first_unknown no_edges link_deps link release process rounds topo_sort
program = tt

abbrev step : String → List String → PlanTask
step id deps = record { id = id; description = "do it"; depends_on = deps; agent_id = none }

abbrev report : List PlanTask
report =
    step "review" ("draft" ∷ "facts" ∷ [])
    ∷ step "draft" ("facts" ∷ [])
    ∷ step "facts" []
    ∷ step "logo" []
    ∷ []

abbrev as_is : List String → List String
as_is xs = xs

report_batches : List (List String)
report_batches = ("facts" ∷ "logo" ∷ []) ∷ ("draft" ∷ []) ∷ ("review" ∷ []) ∷ []

sorted_report : topo_sort as_is report ≡ some (sorted report_batches)
unfolding program report_batches
sorted_report = refl

loop : topo_sort as_is (step "a" ("b" ∷ []) ∷ step "b" ("a" ∷ []) ∷ []) ≡ some cycle
unfolding program
loop = refl

unknown : topo_sort as_is (step "a" ("b" ∷ []) ∷ []) ≡ some (unknown_dependency "a" "b")
unfolding program
unknown = refl

-- Two tasks with one id are taken for a cycle.
twins : topo_sort as_is (step "a" [] ∷ step "a" [] ∷ []) ≡ some cycle
unfolding program
twins = refl

topo_sort-sorted_example :
    (times "draft" (concat report_batches) ≡ times "draft" (ids report))
    × (times "draft" (ids report) ≤ 1)
    × (depends report "draft" "facts" ≡ true
        → batch_of "facts" report_batches < batch_of "draft" report_batches)
topo_sort-sorted_example =
    topo_sort-sorted as_is report report_batches "draft" "facts" (λ x xs. refl) sorted_report

abbrev pair : List PlanTask
pair = step "draft" ("facts" ∷ []) ∷ step "facts" [] ∷ []

-- How far a task is from the start.
abbrev rank : String → ℕ
rank x = if x =? "draft" then 1 else 0

draft_facts : ◌≢◌ {A = String} "draft" "facts"
draft_facts = ground (arith, string_keyed.beq_iff "draft" "facts")

two_names :
    (x a b : String) → a ≢ b → (if a =? x then 1 else 0) + ((if b =? x then 1 else 0) + 0) ≤ 1
two_names x a b h = ground (arith, string_keyed.beq_iff a x, string_keyed.beq_iff b x)

pair_unique : (x : String) → times x (ids pair) ≤ 1
pair_unique x = two_names x "draft" "facts" draft_facts

-- The only dependency of the pair.
pair_depends :
    (a b x d : String) → depends (step a (b ∷ []) ∷ step b [] ∷ []) x d ≡ true → (x ≡ a) × (d ≡ b)
pair_depends a b x d h = ground (arith, string_keyed.beq_iff a x, string_keyed.beq_iff b d)

pair_known : (x d : String) → depends pair x d ≡ true → contains d (ids pair) ≡ true
pair_known x d h = rw (pair_depends "draft" "facts" x d h).1 refl

pair_down : (x d : String) → depends pair x d ≡ true → rank d < rank x
pair_down x d h = let (e, f) = pair_depends "draft" "facts" x d h in rw (e, f) (omega arith)

topo_sort-acyclic_example : (bs : List (List String)) × (topo_sort as_is pair ≡ some (sorted bs))
topo_sort-acyclic_example =
    topo_sort-acyclic as_is pair rank (λ x xs. refl) pair_unique pair_known pair_down

topo_sort-total_example :
    (r : TopoResult) × (topo_sort as_is (step "a" ("b" ∷ []) ∷ []) ≡ some r)
    × ((x d : String)
        → r ≡ unknown_dependency x d
        → (depends (step "a" ("b" ∷ []) ∷ []) x d ≡ true)
          × (contains d (ids (step "a" ("b" ∷ []) ∷ [])) ≡ false))
topo_sort-total_example = topo_sort-total as_is (step "a" ("b" ∷ []) ∷ []) (λ x xs. refl)

-- A plan over a manager with one slot whose tasks never end: it runs out of time.
abbrev evenly : ℕ → ℕ → List Pause
evenly zero now = []
evenly (suc n) now = record { events = []; clock = now + 3 } ∷ evenly n (now + 3)

evenly-IsSpaced : (n now : ℕ) → IsSpaced now (evenly n now)
evenly-IsSpaced zero now = tt
evenly-IsSpaced (suc n) now = (omega arith, evenly-IsSpaced n (now + 3))

length-evenly : (n now : ℕ) → length (evenly n now) ≡ n
length-evenly zero now = omega arith
length-evenly (suc n) now = omega (arith, length-evenly n (now + 3))

abbrev lookup : List (String × PlanTask)
lookup = ("facts", step "facts" []) ∷ ("draft", step "draft" ("facts" ∷ [])) ∷ []

run_plan-ends_example :
    is_some (
      run_plan
        (λ t. t.id)
        "chat"
        "1"
        lookup
        (λ s p. "review")
        "final-review"
        (("facts" ∷ []) ∷ ("draft" ∷ []) ∷ [])
        (evenly 3003 500)
        500
        (start_plan 1 "write" 500 (new 1 [])))
    ≡ true
run_plan-ends_example =
    run_plan-ends (λ t. t.id) "chat" "1" lookup (λ s p. "review") "final-review"
      (("facts" ∷ []) ∷ ("draft" ∷ []) ∷ []) (evenly 3003 500) 500 1 "write" (new 1 [])
      (evenly-IsSpaced 3003 500) (omega (arith, length-evenly 3003 500))

-- A plan of two tasks whose tasks and review answer at once.
abbrev answered : ℕ → ℕ → Pause
answered task_id now = record { events = completes task_id (response "done") now ∷ []; clock = now }

abbrev good_run : Option (PlanExecution × SubagentManager)
good_run =
    run_plan (λ t. t.id) "chat" "1" lookup (λ s p. "review") "final-review"
      (("facts" ∷ []) ∷ ("draft" ∷ []) ∷ []) (answered 1 503 ∷ answered 2 506 ∷ answered 3 509 ∷ [])
      500 (start_plan 1 "write" 500 (new 2 []))

abbrev plan_of : Option (PlanExecution × SubagentManager) → PlanExecution
plan_of none = (start_plan 1 "write" 500 (new 2 [])).plan
plan_of (some (plan, s)) = plan

abbrev manager_of : Option (PlanExecution × SubagentManager) → SubagentManager
manager_of none = new 2 []
manager_of (some (plan, s)) = s

executed : Unit {0}
unfolding unknown_in spawn_batch all_done record_outcomes cancel_open poll run_batches poll_review
    finalize start_plan run_plan new running_count launch_task_locked enqueue spawn check_pop
    is_still_queued promote drain drain_pending finish_found complete cancel_in cancel_task
    get_task_status get_task_result run
executed = tt

good_run-ends : good_run ≡ some (plan_of good_run, manager_of good_run)
unfolding executed Ops.step
good_run-ends = refl

run_plan-succeeds_example : Dict.get "draft" (plan_of good_run).task_outcomes ≡ some completed
unfolding executed Ops.step
run_plan-succeeds_example =
    run_plan-succeeds (λ t. t.id) "chat" "1" lookup (λ s p. "review") "final-review"
      (("facts" ∷ []) ∷ ("draft" ∷ []) ∷ []) (answered 1 503 ∷ answered 2 506 ∷ answered 3 509 ∷ [])
      500 (start_plan 1 "write" 500 (new 2 [])) (plan_of good_run) (manager_of good_run) "draft"
      ((refl, tt), ((refl, tt), tt)) good_run-ends refl refl
