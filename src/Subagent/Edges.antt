-- ===== src/Subagent/Edges.antt =====
-- What spawning does with an unknown profile, and what a cancelled run leaves (src/subagent.rs).
use openpaw.Prelude.{ℕ, ◌+◌, ◌<◌, ◌≤◌, ◌≡◌, refl, true, none, some, [], ◌∷◌, ◌++◌, nat_keyed, arith}
use openpaw.Dict
use openpaw.Dict.{get-insert, get-update, remove-insert_fresh}
use openpaw.Subagent.{queued, running, cancelled, TaskState, SubagentManager}
use openpaw.Subagent.Launch.{
  Request, running_count, launch_task_locked, spawn, set_handle, is_unknown, fresh, enqueue,
  to_pending,
}
use openpaw.Subagent.Drain.{promote, to_running}
use openpaw.Subagent.Ops.{Outcome, complete, cancel_task, to_aborted, get_task_status}
use openpaw.Subagent.Counting.{running_count-update}

-- A request with an unknown profile that finds a free slot is refused, and the tasks, the queue and the
-- reports stay as they were (the id is used up).
pub spawn-unknown_free :
    (s : SubagentManager) (r : Request) (now : ℕ)
    → is_unknown s.agents r.agent_name ≡ true
    → running_count s.tasks < s.max_concurrent
    → Dict.get s.next_id s.tasks ≡ none
    → let (t, reply) = spawn s r now in
      (reply ≡ none) × (t.tasks ≡ s.tasks) × (t.pending ≡ s.pending) × (t.outbox ≡ s.outbox)
unfolding spawn launch_task_locked
spawn-unknown_free s r now h free fresh_id =
    ground (arith, remove-insert_fresh s.next_id (fresh running (some s.next_id) r now) s.tasks)

-- The same request at a full manager is accepted and queued, and when its turn comes it runs.
pub spawn-unknown_full :
    (s u : SubagentManager) (r : Request) (now later : ℕ)
    → is_unknown s.agents r.agent_name ≡ true
    → s.max_concurrent ≤ running_count s.tasks
    → u.tasks ≡ (spawn s r now).0.tasks
    → let (t, reply) = spawn s r now in
      (reply ≡ some s.next_id)
      × (t.pending ≡ s.pending ++ to_pending s.next_id r ∷ [])
      × (get_task_status t s.next_id ≡ some queued)
      × (get_task_status (promote u (to_pending s.next_id r) later) s.next_id ≡ some running)
unfolding spawn enqueue promote get_task_status
spawn-unknown_full s u r now later h full same =
    let id = s.next_id in
    ground (
      arith,
      get-insert id id (fresh queued none r now) s.tasks,
      get-update id id (λ v. set_handle id (to_running id later v)) u.tasks,
    )

-- The cancellation of a running task frees its slot and leaves the queue as it is; the end of the
-- cancelled run changes nothing at all, so no waiting task is promoted by either.
pub cancel-complete :
    (s : SubagentManager) (id now later : ℕ) (outcome : Outcome) (t : TaskState)
    → Dict.get id s.tasks ≡ some t
    → t.status ≡ running
    → let s' = (cancel_task s id now).0 in
      (running_count s'.tasks + 1 ≡ running_count s.tasks)
      × (s'.pending ≡ s.pending)
      × (get_task_status s' id ≡ some cancelled)
      × (complete s' id outcome later ≡ s')
cancel-complete s id now later outcome t found h =
    let after : Dict.get id (cancel_task s id now).0.tasks ≡ some (to_aborted now t) =
      unfold cancel_task in ground (arith, get-update id id (to_aborted now) s.tasks) in
    (
      unfold cancel_task in
          ground (arith, running_count-update id (to_aborted now) s.tasks t found),
      unfold cancel_task in ground arith,
      unfold get_task_status in rw after refl,
      unfold complete in rw after refl,
    )
