-- ===== src/Subagent/Capacity.antt =====
-- The limit on running tasks, and the full use of it (src/subagent.rs).
use openpaw.Prelude.{
  ◌%◌, ◌^◌, ℕ, ◌+◌, ◌≤◌, ◌<◌, ◌≡◌, inl, inr, Option, none, some, List, [], ◌∷◌, String, nat_keyed,
  arith, Bool-cases,
}
use openpaw.Dict
use openpaw.Subagent.{queued, running, TaskState, PendingTask, SubagentManager, is_cancelled}
use openpaw.Subagent.Launch.{
  Request, new, running_count, fresh, enqueue, launch_task_locked, spawn, set_handle,
}
use openpaw.Subagent.Drain.{popped, check_pop, promote, drain_pending, to_running, settle}
use openpaw.Subagent.Rounds.{check_pop-popped, drain_pending_inv}
use openpaw.Subagent.Ops.{
  Outcome, response, error, finish, finish_found, complete, cancel_task, to_cancelled, to_aborted,
  watch, watchdog, monitor_tick, Event, spawns, completes, cancels, ticks, step, run,
}
use openpaw.Subagent.Counting.{
  weight, running_count-insert, running_count-remove, running_count-update-le,
  running_count-update-one, running_count-map_values,
}

-- No more tasks run than the limit.
abbrev pub Fits : SubagentManager → Type 0
Fits s = running_count s.tasks ≤ s.max_concurrent

launch-Fits :
    (s : SubagentManager) (id : ℕ) (r : Request) (now : ℕ)
    → running_count s.tasks < s.max_concurrent
    → Fits (launch_task_locked s id r now).0
unfolding launch_task_locked
launch-Fits s id r now h =
    let t = fresh running (some id) r now in
    let tasks = Dict.insert id t s.tasks in
    ground (
      arith,
      running_count-insert id t s.tasks,
      running_count-remove id tasks,
      running_count-update-le id (set_handle id) tasks (λ u. ground arith),
    )

enqueue-Fits :
    (s : SubagentManager) (id : ℕ) (r : Request) (now : ℕ) → Fits s → Fits (enqueue s id r now)
unfolding enqueue
enqueue-Fits s id r now h =
    ground (arith, running_count-insert id (fresh queued none r now) s.tasks)

spawn-Fits : (s : SubagentManager) (r : Request) (now : ℕ) → Fits s → Fits (spawn s r now).0
unfolding spawn
spawn-Fits s r now h =
    let s' = record s { next_id = (s.next_id + 1) % 2 ^ 64 } in
    ground (arith, enqueue-Fits s' s.next_id r now, launch-Fits s' s.next_id r now)

promote-Fits :
    (s : SubagentManager) (p : PendingTask) (now : ℕ)
    → running_count s.tasks < s.max_concurrent
    → Fits (promote s p now)
unfolding promote
promote-Fits s p now h = ground (
  arith,
  running_count-update-one p.task_id (λ t. set_handle p.task_id (to_running p.task_id now t))
      s.tasks,
)

round-Fits :
    (s s' : SubagentManager) (p : PendingTask) (now : ℕ)
    → check_pop s ≡ popped p s'
    → Fits s
    → Fits (settle s' p now)
round-Fits s s' p now e h = ground (arith, check_pop-popped s s' p e, promote-Fits s' p now)

drain_pending-Fits : (s : SubagentManager) (now : ℕ) → Fits s → Fits (drain_pending s now)
drain_pending-Fits s now h = drain_pending_inv Fits now (λ t t' p. round-Fits t t' p now) s h

weight-finish :
    (outcome : Outcome) (now : ℕ) (t : TaskState) → weight (finish outcome now t) ≤ weight t
weight-finish (response text) now t = ground arith
weight-finish (error text) now t = ground arith

complete-Fits :
    (s : SubagentManager) (id : ℕ) (outcome : Outcome) (now : ℕ)
    → Fits s
    → Fits (complete s id outcome now)
unfolding complete
complete-Fits s id outcome now h = go (Dict.get id s.tasks)
  where
    go : (o : Option TaskState) → Fits (finish_found o s id outcome now)
    go none = unfold finish_found in drain_pending-Fits s now h
    go (some t) =
        unfold finish_found in
        elim (Bool-cases (is_cancelled t.status)) [
          | inl e ↦ rw e h
          | inr e ↦ rw e (
              drain_pending-Fits _ now (
                omega (
                  arith,
                  h,
                  running_count-update-le id (finish outcome now) s.tasks
                      (weight-finish outcome now),
                )))
        ]

cancel_task-Fits : (s : SubagentManager) (id now : ℕ) → Fits s → Fits (cancel_task s id now).0
unfolding cancel_task
cancel_task-Fits s id now h = ground (
  arith,
  running_count-update-le id (to_cancelled now) s.tasks (λ t. ground arith),
  running_count-update-le id (to_aborted now) s.tasks (λ t. ground arith),
)

watchdog-Fits : (s : SubagentManager) (now : ℕ) → Fits s → Fits (watchdog s now)
unfolding watchdog
watchdog-Fits s now h =
    omega (arith, h, running_count-map_values (watch now) s.tasks (λ t. ground arith))

step-Fits : (s : SubagentManager) (e : Event) → Fits s → Fits (step s e)
unfolding step
step-Fits s (spawns r now) h = spawn-Fits s r now h
step-Fits s (completes id outcome now) h = complete-Fits s id outcome now h
step-Fits s (cancels id now) h = cancel_task-Fits s id now h
step-Fits s (ticks now) h =
    unfold monitor_tick in drain_pending-Fits (watchdog s now) now (watchdog-Fits s now h)

run-Fits_from : (es : List Event) (s : SubagentManager) → Fits s → Fits (run s es)
unfolding run
run-Fits_from [] s h = h
run-Fits_from (e ∷ es) s h = run-Fits_from es (step s e) (step-Fits s e h)

-- However tasks are spawned, end, are cancelled and time out, one event at a time, a manager that
-- starts empty never has more tasks running than `max_concurrent`.
pub run-Fits :
    (max_concurrent : ℕ) (agents : List String) (es : List Event)
    → Fits (run (new max_concurrent agents) es)
unfolding new
run-Fits max_concurrent agents es =
    run-Fits_from es (new max_concurrent agents) (unfold running_count in omega arith)
