-- ===== src/Subagent/Tests.antt =====
-- Runs of the manager of background tasks (src/subagent.rs), and the theorems at them.
use openpaw.Prelude.{
  ◌+◌, ◌≤◌, ◌≡◌, ◌⊎◌, refl, true, false, Option, none, some, List, [], ◌∷◌, String, nat_keyed,
  arith, if◌then◌else◌,
}
use openpaw.Dict
use openpaw.Subagent.{running, completed, failed, cancelled, TaskState, SubagentManager}
use openpaw.Subagent.Launch.{
  Request, new, running_count, launch_task_locked, spawn, enqueue, to_pending,
}
use openpaw.Subagent.Drain.{popped, check_pop, is_still_queued, promote, drain, drain_pending}
use openpaw.Subagent.Rounds.{drain_pending-full}
use openpaw.Subagent.Ops.{
  response, finish_found, complete, cancel_in, cancel_task, watch_reports, watchdog, monitor_tick,
  get_task_status, get_task_result, Event, spawns, completes, cancels, ticks, step, run,
}
use openpaw.Subagent.Capacity.{Fits, run-Fits}
use openpaw.Subagent.Queue.{places, waits}
use openpaw.Subagent.Waiting.{run-IsQueue, CanRun}
use openpaw.Subagent.Launch.{to_pending}
use openpaw.Subagent.Sections.{
  before_round, took, Shared, Section, ending, watching, draining, drain_section, sections,
}
use openpaw.Subagent.Final.{sections_keep, cancel-revived}
use openpaw.Subagent.Race.{two_drains}

program : Unit {0}
unfolding new running_count launch_task_locked spawn enqueue check_pop is_still_queued promote drain
    drain_pending finish_found complete cancel_in cancel_task watch_reports watchdog monitor_tick
    get_task_status get_task_result step run
program = tt

abbrev ask : Option String → Request
ask agent = record {
  task = "read";
  label = "reader";
  origin_channel = "cli";
  origin_chat_id = "1";
  agent_name = agent;
  suppress_report = false;
}

abbrev events : List Event
events =
    spawns (ask none) 10
    ∷ spawns (ask (some "coder")) 11
    ∷ spawns (ask none) 12
    ∷ cancels 2 13
    ∷ completes 1 (response "done") 14
    ∷ []

abbrev start : SubagentManager
start = new 1 ("coder" ∷ [])

abbrev busy : SubagentManager
busy = run start (spawns (ask none) 10 ∷ spawns (ask none) 11 ∷ spawns (ask none) 12 ∷ [])

statuses :
    (get_task_status (run start events) 1 ≡ some completed)
    × (get_task_status (run start events) 2 ≡ some cancelled)
    × (get_task_status (run start events) 3 ≡ some running)
unfolding program
statuses = (refl, refl, refl)

overdue : get_task_status (run busy (ticks 3611 ∷ [])) 1 ≡ some failed
unfolding program
overdue = refl

promoted : get_task_status (run busy (ticks 3611 ∷ [])) 2 ≡ some running
unfolding program
promoted = refl

run-Fits_example : Fits (run (new 1 ("coder" ∷ [])) events)
run-Fits_example = run-Fits 1 ("coder" ∷ []) events

events-CanRun : CanRun start events
unfolding program
events-CanRun = (tt, (tt, (tt, (tt, (refl, tt)))))

run-IsQueue_example :
    places 2 (run start events).pending ≡ (if waits 2 (run start events) then 1 else 0)
run-IsQueue_example = run-IsQueue 1 ("coder" ∷ []) events 2 (omega arith) events-CanRun

drain_pending-full_example :
    ((drain_pending busy 20).max_concurrent ≤ running_count (drain_pending busy 20).tasks)
    ⊎ ((drain_pending busy 20).pending ≡ [])
drain_pending-full_example = drain_pending-full busy 20

-- The third task, once it was cancelled.
abbrev dropped : SubagentManager
dropped = (cancel_task busy 3 15).0

abbrev third : TaskState
third = record {
  status = cancelled;
  label = "reader";
  session_key = none;
  result = none;
  error_msg = none;
  started_at = 12;
  completed_at = some 15;
  last_heartbeat = 12;
  iteration_count = 0;
  origin_channel = "cli";
  origin_chat_id = "1";
  abort_handle = none;
  suppress_report = false;
}

dropped-third : Dict.get 3 dropped.tasks ≡ some third
unfolding program
dropped-third = refl

dropped-next_id : dropped.next_id ≡ 4
unfolding program
dropped-next_id = refl

-- Two threads drain while the third task's run ends late: one has just begun, the other took it out.
abbrev between : Shared
between = record {
  manager = dropped;
  hands = (0, before_round) ∷ (1, took (to_pending 3 (ask none))) ∷ [];
}

abbrev later_sections : List Section
later_sections =
    draining 1 20
    ∷ ending 3 (response "late") 21
    ∷ draining 0 22
    ∷ ending 1 (response "done") 23
    ∷ draining 0 24
    ∷ draining 0 25
    ∷ watching 30
    ∷ []

sections_keep_example : Dict.get 3 (sections between later_sections).manager.tasks ≡ some third
sections_keep_example =
    sections_keep later_sections 3 between third (omega (arith, dropped-next_id))
      (omega (arith, dropped-next_id)) refl (tt, (tt, tt)) dropped-third

busy-waits : is_still_queued busy 3 ≡ true
unfolding program
busy-waits = refl

cancel-revived_example :
    let (hand, s1) = drain_section (took (to_pending 3 (ask none))) busy 21 in
    let s2 = (cancel_task s1 3 21).0 in
    let (hand', s3) = drain_section hand s2 22 in
    (get_task_status s2 3 ≡ some cancelled) × (get_task_status s3 3 ≡ some running)
cancel-revived_example = cancel-revived busy (to_pending 3 (ask none)) 21 22 busy-waits

abbrev waiting_room : SubagentManager
waiting_room = (spawn busy (ask (some "ghost")) 13).0

abbrev first : TaskState
first = record {
  status = running;
  label = "reader";
  session_key = some 1;
  result = none;
  error_msg = none;
  started_at = 10;
  completed_at = none;
  last_heartbeat = 10;
  iteration_count = 0;
  origin_channel = "cli";
  origin_chat_id = "1";
  abort_handle = some 1;
  suppress_report = false;
}

-- Two slots, one of them free, and two tasks in the queue.
abbrev one_slot : SubagentManager
one_slot = record busy { max_concurrent = 2 }

two_drains_example :
    let p = to_pending 2 (ask none) in
    let q = to_pending 3 (ask none) in
    let s1 = record one_slot { pending = q ∷ [] } in
    let s2 = record one_slot { pending = [] } in
    let s3 = promote s2 p 20 in
    (check_pop one_slot ≡ popped p s1)
    × (check_pop s1 ≡ popped q s2)
    × (is_still_queued s2 p.task_id ≡ true)
    × (is_still_queued s3 q.task_id ≡ true)
    × (running_count (promote s3 q 21).tasks ≡ one_slot.max_concurrent + 1)
two_drains_example =
    two_drains one_slot (to_pending 2 (ask none)) (to_pending 3 (ask none)) [] 20 21
      (unfold program in refl) (unfold program in refl) (ground arith) (unfold program in refl)
      (unfold program in refl)
