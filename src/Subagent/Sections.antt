-- ===== src/Subagent/Sections.antt =====
-- The background tasks (src/subagent.rs) one lock section at a time: any number of threads run
-- `drain_pending`, and whatever takes a lock comes between the sections of a drain.
use openpaw.Prelude.{ℕ, Option, none, some, List, [], ◌∷◌, ◌++◌, nat_keyed, if◌then◌else◌}
use openpaw.Dict
use openpaw.Subagent.{TaskState, PendingTask, SubagentManager, is_cancelled}
use openpaw.Subagent.Launch.{Request, spawn, report_unless, set_handle}
use openpaw.Subagent.Drain.{full, empty, popped, Popped, check_pop, is_still_queued, to_running}
use openpaw.Subagent.Ops.{Outcome, finish, finish_notice, report_of, cancel_task, watchdog}

-- Where a thread stands in a round of `drain_pending`: before it, with the task that it took out, with
-- a task that it found queued, and with a task that runs and has no handle yet. A drain that is over
-- is before the first round of the next.
pub data Hand : Type 0 where
  before_round : Hand
  took tested began : PendingTask → Hand

abbrev pub after_pop : Popped → SubagentManager → Hand × SubagentManager
after_pop full s = (before_round, s)
after_pop empty s = (before_round, s)
after_pop (popped p s') s = (took p, s')

-- The section that sets a task running.
abbrev pub start : SubagentManager → PendingTask → ℕ → SubagentManager
start s p now = record s { tasks = Dict.update p.task_id (to_running p.task_id now) s.tasks }

-- The section that stores the handle of the task that was spawned.
abbrev pub store_handle : SubagentManager → PendingTask → SubagentManager
store_handle s p = record s { tasks = Dict.update p.task_id (set_handle p.task_id) s.tasks }

-- The next section of a thread's drain.
unfoldable pub drain_section : Hand → SubagentManager → ℕ → Hand × SubagentManager
unfolding check_pop is_still_queued
drain_section before_round s now = after_pop (check_pop s) s
drain_section (took p) s now = (if is_still_queued s p.task_id then tested p else before_round, s)
drain_section (tested p) s now = (began p, start s p now)
drain_section (began p) s now = (before_round, store_handle s p)

-- The section at the end of a task, before the drain.
abbrev pub end_found : Option TaskState → SubagentManager → ℕ → Outcome → ℕ → SubagentManager
end_found none s task_id outcome now = s
end_found (some t) s task_id outcome now = if is_cancelled t.status then s else record s {
  tasks = Dict.update task_id (finish outcome now) s.tasks;
  outbox =
      s.outbox ++ report_unless t.suppress_report (report_of t (finish_notice task_id outcome));
}

unfoldable pub end_task : SubagentManager → ℕ → Outcome → ℕ → SubagentManager
end_task s task_id outcome now = end_found (Dict.get task_id s.tasks) s task_id outcome now

-- The manager, and where each thread stands.
pub record Shared : Type 0 where
  pub manager : SubagentManager
  pub hands : List (ℕ × Hand)

pub data Section : Type 0 where
  spawning : Request → ℕ → Section
  ending : ℕ → Outcome → ℕ → Section
  cancelling : ℕ → ℕ → Section
  watching : ℕ → Section
  draining : ℕ → ℕ → Section

abbrev pub hand_of : Option Hand → Hand
hand_of none = before_round
hand_of (some hand) = hand

abbrev pub drained : ℕ → List (ℕ × Hand) → Hand × SubagentManager → Shared
drained thread hands (hand, s) = record { manager = s; hands = Dict.insert thread hand hands }

unfoldable pub section : Shared → Section → Shared
unfolding end_task drain_section
section x (spawning r now) = record x { manager = (spawn x.manager r now).0 }
section x (ending task_id outcome now) = record x {
  manager = end_task x.manager task_id outcome now;
}
section x (cancelling task_id now) = record x { manager = (cancel_task x.manager task_id now).0 }
section x (watching now) = record x { manager = watchdog x.manager now }
section x (draining thread now) =
    drained thread x.hands (drain_section (hand_of (Dict.get thread x.hands)) x.manager now)

unfoldable pub sections : Shared → List Section → Shared
unfolding section
sections x [] = x
sections x (e ∷ es) = sections (section x e) es
