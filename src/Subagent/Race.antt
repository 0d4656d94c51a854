-- ===== src/Subagent/Race.antt =====
-- Two tasks that drain the queue at the same time (src/subagent.rs, `drain_pending`): the sections
-- of one run between those of the other.
use openpaw.Prelude.{
  ℕ, ◌+◌, ◌≡◌, ◌≢◌, inl, inr, true, List, ◌∷◌, nat_keyed, arith, Option-cases, ◌∙◌,
}
use openpaw.Dict
use openpaw.Dict.{get-update, remove-insert_fresh}
use openpaw.Subagent.{PendingTask, SubagentManager}
use openpaw.Subagent.Launch.{running_count, set_handle}
use openpaw.Subagent.Drain.{popped, check_pop, is_still_queued, promote, to_running}
use openpaw.Subagent.Counting.{running_count-update}

-- The promotion of a task that waits makes one more task run, and leaves the others waiting.
promote-running_count :
    (s : SubagentManager) (p : PendingTask) (now : ℕ)
    → is_still_queued s p.task_id ≡ true
    → running_count (promote s p now).tasks ≡ running_count s.tasks + 1
unfolding promote is_still_queued
promote-running_count s p now h = elim (Option-cases (Dict.get p.task_id s.tasks)) [
  | inl e ↦ ground (arith)
  | inr (t, e) ↦ ground (
    arith,
    running_count-update p.task_id (λ u. set_handle p.task_id (to_running p.task_id now u)) s.tasks
        t e,
  )
]

promote-other :
    (s : SubagentManager) (p : PendingTask) (id now : ℕ)
    → p.task_id ≢ id
    → is_still_queued (promote s p now) id ≡ is_still_queued s id
unfolding promote is_still_queued
promote-other s p id now h = ground (
  arith,
  get-update p.task_id id (λ u. set_handle p.task_id (to_running p.task_id now u)) s.tasks,
)

-- The limit is tested in one lock section and the task is promoted in another. With one free slot and
-- two waiting tasks in front of the queue, two drains whose first sections run before either promotes
-- both take a task, each finds its task still queued, and one task too many runs.
pub two_drains :
    (s : SubagentManager) (p q : PendingTask) (rest : List PendingTask) (now later : ℕ)
    → running_count s.tasks + 1 ≡ s.max_concurrent
    → s.pending ≡ p ∷ q ∷ rest
    → p.task_id ≢ q.task_id
    → is_still_queued s p.task_id ≡ true
    → is_still_queued s q.task_id ≡ true
    → let s1 = record s { pending = q ∷ rest } in
      let s2 = record s { pending = rest } in
      let s3 = promote s2 p now in
      (check_pop s ≡ popped p s1)
      × (check_pop s1 ≡ popped q s2)
      × (is_still_queued s2 p.task_id ≡ true)
      × (is_still_queued s3 q.task_id ≡ true)
      × (running_count (promote s3 q later).tasks ≡ s.max_concurrent + 1)
unfolding is_still_queued
two_drains s p q rest now later one queue apart p_waits q_waits =
    let s2 = record s { pending = rest } in
    let q_still = promote-other s2 p q.task_id now apart ∙ q_waits in
    (
      unfold check_pop in ground arith,
      unfold check_pop in ground arith,
      p_waits,
      q_still,
      omega (
        arith,
        one,
        promote-running_count s2 p now p_waits,
        promote-running_count (promote s2 p now) q later q_still,
      ),
    )
