-- ===== src/Subagent/Queue.antt =====
-- The queue and the map agree (src/subagent.rs).
use openpaw.Prelude.{
  ℕ, ◌+◌, ◌<◌, ◌≡◌, refl, ◌^◌, ◌%◌, inl, inr, Bool, true, not, none, some, List, [], ◌∷◌, nat_keyed,
  count, count-append, retain, arith, ◌==◌, leb, if◌then◌else◌, Bool-cases, Option-cases, is_some,
}
use openpaw.Dict
use openpaw.Dict.{get-insert, get-remove, get-update, get-map_values, map_option}
use openpaw.Subagent.{queued, running, TaskState, PendingTask, SubagentManager}
use openpaw.Subagent.Launch.{
  Request, running_count, fresh, enqueue, launch_task_locked, spawn, set_handle, to_pending,
}
use openpaw.Subagent.Drain.{
  popped, check_pop, option_waiting, is_still_queued, promote, drain_pending, settle, to_running,
}
use openpaw.Subagent.Rounds.{check_pop-popped, drain_pending_inv}

-- How often a task stands in the queue.
abbrev pub places : ℕ → List PendingTask → ℕ
places id = count (λ p. PendingTask.task_id p == id)

-- Whether the map says that a task waits.
abbrev pub waits : ℕ → SubagentManager → Bool
waits id s = option_waiting (Dict.get id s.tasks)

pub record IsQueue (s : SubagentManager) : Type 0 where
  pub agree : (id : ℕ) → places id s.pending ≡ (if waits id s then 1 else 0)
  pub used : (id : ℕ) → is_some (Dict.get id s.tasks) ≡ true → id < s.next_id

pub places-retain :
    (k i : ℕ) (ps : List PendingTask)
    → places i (retain (λ p. not (PendingTask.task_id p == k)) ps)
      ≡ (if k == i then 0 else places i ps)
places-retain k i [] = ground arith
places-retain k i (p ∷ ps) = ground (arith, places-retain k i ps)

-- An id that is not used yet is nowhere.
unused : (s : SubagentManager) → IsQueue s → Dict.get s.next_id s.tasks ≡ none
unused s q = elim (Option-cases (Dict.get s.next_id s.tasks)) [
  | inl e ↦ e
  | inr (t, e) ↦ absurd (omega (arith, q.used s.next_id (rw e refl)))
]

enqueue-IsQueue :
    (s : SubagentManager) (r : Request) (now : ℕ)
    → s.next_id + 1 < 2 ^ 64
    → IsQueue s
    → IsQueue (enqueue (record s { next_id = (s.next_id + 1) % 2 ^ 64 }) s.next_id r now)
unfolding enqueue
enqueue-IsQueue s r now room q = record {
  agree = λ id. ground (
    arith,
    q.agree id,
    unused s q,
    get-insert s.next_id id (fresh queued none r now) s.tasks,
    count-append (λ p. PendingTask.task_id p == id) s.pending (to_pending s.next_id r ∷ []),
  );
  used =
      λ id h. ground (arith, q.used id, get-insert s.next_id id (fresh queued none r now) s.tasks);
}

launch-IsQueue :
    (s : SubagentManager) (r : Request) (now : ℕ)
    → s.next_id + 1 < 2 ^ 64
    → IsQueue s
    → IsQueue
        (launch_task_locked (record s { next_id = (s.next_id + 1) % 2 ^ 64 }) s.next_id r now).0
unfolding launch_task_locked
launch-IsQueue s r now room q =
    let t = fresh running (some s.next_id) r now in
    let tasks = Dict.insert s.next_id t s.tasks in
    record {
      agree = λ id. ground (
        arith,
        q.agree id,
        unused s q,
        get-insert s.next_id id t s.tasks,
        get-remove s.next_id id tasks,
        get-update s.next_id id (set_handle s.next_id) tasks,
      );
      used = λ id h. ground (
        arith,
        q.used id,
        get-insert s.next_id id t s.tasks,
        get-remove s.next_id id tasks,
        get-update s.next_id id (set_handle s.next_id) tasks,
      );
    }

pub spawn-IsQueue :
    (s : SubagentManager) (r : Request) (now : ℕ)
    → s.next_id + 1 < 2 ^ 64
    → IsQueue s
    → IsQueue (spawn s r now).0
unfolding spawn
spawn-IsQueue s r now room q = elim (Bool-cases (leb s.max_concurrent (running_count s.tasks))) [
  | inl e ↦ rw e (enqueue-IsQueue s r now room q)
  | inr e ↦ rw e (launch-IsQueue s r now room q)
]

-- A task that is taken out of the queue waits, so it is promoted.
settle-IsQueue :
    (s s' : SubagentManager) (p : PendingTask) (now : ℕ)
    → check_pop s ≡ popped p s'
    → IsQueue s
    → IsQueue (settle s' p now)
unfolding promote is_still_queued
settle-IsQueue s s' p now e q =
    let (_, queue, tasks, _, next) = check_pop-popped s s' p e in
    let f : TaskState → TaskState = λ t. set_handle p.task_id (to_running p.task_id now t) in
    record {
      agree = λ id.
          ground (
            arith,
            queue,
            tasks,
            q.agree id,
            q.agree p.task_id,
            get-update p.task_id id f s'.tasks,
          );
      used = λ id h. ground (
        arith,
        queue,
        tasks,
        next,
        q.agree p.task_id,
        q.used id,
        get-update p.task_id id f s'.tasks,
      );
    }

pub drain-IsQueue : (s : SubagentManager) (now : ℕ) → IsQueue s → IsQueue (drain_pending s now)
drain-IsQueue s now q = drain_pending_inv IsQueue now (λ t t' p. settle-IsQueue t t' p now) s q
