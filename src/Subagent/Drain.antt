-- ===== src/Subagent/Drain.antt =====
-- The promotion of queued tasks (src/subagent.rs, `drain_pending`), one lock section at a time.
use openpaw.Prelude.{
  ℕ, zero, suc, Bool, false, Option, none, some, List, [], ◌∷◌, nat_keyed, length, leb,
  if◌then◌else◌,
}
use openpaw.Dict
use openpaw.Subagent.{running, TaskState, PendingTask, SubagentManager, is_waiting}
use openpaw.Subagent.Launch.{running_count, set_handle}

-- What the first section finds: no free slot, an empty queue, or the task at its front, taken out.
pub data Popped : Type 0 where
  full empty : Popped
  popped : PendingTask → SubagentManager → Popped

abbrev pub front : List PendingTask → SubagentManager → Popped
front [] s = empty
front (p ∷ rest) s = popped p (record s { pending = rest })

unfoldable pub check_pop : SubagentManager → Popped
unfolding running_count
check_pop s = if leb s.max_concurrent (running_count s.tasks) then full else front s.pending s

abbrev pub option_waiting : Option TaskState → Bool
option_waiting none = false
option_waiting (some t) = is_waiting t.status

-- The second section: whether the task is still queued.
unfoldable pub is_still_queued : SubagentManager → ℕ → Bool
is_still_queued s task_id = option_waiting (Dict.get task_id s.tasks)

abbrev pub to_running : ℕ → ℕ → TaskState → TaskState
to_running task_id now t = record t {
  status = running;
  session_key = some task_id;
  started_at = now;
  last_heartbeat = now;
}

-- The last sections: the task runs, and gets its handle. A profile that is not known is passed over.
unfoldable pub promote : SubagentManager → PendingTask → ℕ → SubagentManager
promote s p now = record s {
  tasks = Dict.update p.task_id (λ t. set_handle p.task_id (to_running p.task_id now t)) s.tasks;
}

-- What a round does with the task that it took out.
abbrev pub settle : SubagentManager → PendingTask → ℕ → SubagentManager
settle s p now = if is_still_queued s p.task_id then promote s p now else s

-- The loop, on fuel; each round takes a task out of the queue.
unfoldable pub drain : ℕ → SubagentManager → ℕ → SubagentManager
drain zero s now = s
drain (suc fuel) s now = elim (check_pop s) [
  | full ↦ s
  | empty ↦ s
  | popped p s' ↦ drain fuel (settle s' p now) now
]

unfoldable pub drain_pending : SubagentManager → ℕ → SubagentManager
unfolding drain
drain_pending s now = drain (suc (length s.pending)) s now
