-- ===== src/Subagent/Waiting.antt =====
-- Over whole runs the queue holds exactly the tasks that wait (src/subagent.rs).
use openpaw.Prelude.{
  ℕ, suc, ◌+◌, ◌<◌, ◌≡◌, refl, ◌^◌, inl, inr, false, not, Option, none, some, List, [], ◌∷◌, String,
  nat_keyed, retain, arith, ◌==◌, if◌then◌else◌, Bool-cases, Option-cases,
}
use openpaw.Dict
use openpaw.Dict.{get-insert, get-remove, get-update, get-map_values, map_option}
use openpaw.Subagent.{
  TaskStatus, queued, running, TaskState, PendingTask, SubagentManager, is_waiting, is_cancelled,
}
use openpaw.Subagent.Launch.{new, enqueue, launch_task_locked, spawn}
use openpaw.Subagent.Drain.{promote, drain_pending}
use openpaw.Subagent.Rounds.{check_pop-popped, drain_pending_inv}
use openpaw.Subagent.Queue.{places, waits, IsQueue, places-retain, spawn-IsQueue, drain-IsQueue}
use openpaw.Subagent.Ops.{
  Outcome, response, error, finish, finish_found, complete, cancel_in, cancel_task, to_cancelled,
  to_aborted, watch, watchdog, monitor_tick, Event, spawns, completes, cancels, ticks, step, run,
}

-- A write that neither takes a task that waits nor makes one wait.
update-IsQueue :
    (s : SubagentManager) (k : ℕ) (f : TaskState → TaskState)
    → IsQueue s
    → waits k s ≡ false
    → ((t : TaskState) → is_waiting (f t).status ≡ false)
    → IsQueue (record s { tasks = Dict.update k f s.tasks })
update-IsQueue s k f q h still = record {
  agree = λ id. elim (Option-cases (Dict.get k s.tasks)) [
    | inl e ↦ ground (arith, q.agree id, get-update k id f s.tasks)
    | inr (t, e) ↦ ground (arith, q.agree id, get-update k id f s.tasks, still t)
  ];
  used = λ id g. ground (arith, q.used id, get-update k id f s.tasks);
}

outbox-IsQueue :
    (s t : SubagentManager)
    → s.tasks ≡ t.tasks
    → s.pending ≡ t.pending
    → s.next_id ≡ t.next_id
    → IsQueue s
    → IsQueue t
outbox-IsQueue s t e f g q = record {
  agree = λ id. ground (arith, q.agree id);
  used = λ id h. ground (arith, q.used id);
}

finish_status :
    (outcome : Outcome) (now : ℕ) (t : TaskState) → is_waiting (finish outcome now t).status ≡ false
finish_status (response text) now t = refl
finish_status (error text) now t = refl

complete-IsQueue :
    (s : SubagentManager) (id : ℕ) (outcome : Outcome) (now : ℕ)
    → waits id s ≡ false
    → IsQueue s
    → IsQueue (complete s id outcome now)
unfolding complete
complete-IsQueue s id outcome now h q = go (Dict.get id s.tasks)
  where
    go : (o : Option TaskState) → IsQueue (finish_found o s id outcome now)
    go none = unfold finish_found in drain-IsQueue s now q
    go (some t) =
        unfold finish_found in
        elim (Bool-cases (is_cancelled t.status)) [
          | inl e ↦ rw e q
          | inr e ↦ rw e (
              drain-IsQueue _ now (
                outbox-IsQueue _ _ refl refl refl
                  (update-IsQueue s id (finish outcome now) q h (finish_status outcome now))))
        ]

cancel_queued :
    (s : SubagentManager) (k now : ℕ)
    → IsQueue s
    → IsQueue (record s {
      pending = retain (λ p. not (PendingTask.task_id p == k)) s.pending;
      tasks = Dict.update k (to_cancelled now) s.tasks;
    })
cancel_queued s k now q = record {
  agree = λ id.
      ground (
        arith,
        q.agree id,
        places-retain k id s.pending,
        get-update k id (to_cancelled now) s.tasks,
      );
  used = λ id h. ground (arith, q.used id, get-update k id (to_cancelled now) s.tasks);
}

cancel-IsQueue : (s : SubagentManager) (k now : ℕ) → IsQueue s → IsQueue (cancel_task s k now).0
unfolding cancel_task
cancel-IsQueue s k now q = elim (Option-cases (Dict.get k s.tasks)) [
  | inl e ↦ rw (e, cancel_task) q
  | inr (t, e) ↦ rw (e, cancel_task) (by_status t.status t refl e)
]
  where
    by_status :
        (c : TaskStatus) (t : TaskState)
        → t.status ≡ c
        → Dict.get k s.tasks ≡ some t
        → IsQueue (cancel_in c t s k now).0
    by_status queued t c e = cancel_queued s k now q
    by_status running t c e =
        outbox-IsQueue _ _ refl refl refl
          (update-IsQueue s k (to_aborted now) q (ground arith) (λ u. refl))
    by_status _ t c e = q

watch_status : (now : ℕ) (t : TaskState) → is_waiting (watch now t).status ≡ is_waiting t.status
watch_status now t = ground arith

watchdog-IsQueue : (s : SubagentManager) (now : ℕ) → IsQueue s → IsQueue (watchdog s now)
unfolding watchdog
watchdog-IsQueue s now q = record {
  agree = λ id. elim (Option-cases (Dict.get id s.tasks)) [
    | inl e ↦ ground (arith, q.agree id, get-map_values id (watch now) s.tasks)
    | inr (t, e) ↦
        ground (arith, q.agree id, get-map_values id (watch now) s.tasks, watch_status now t)
  ];
  used = λ id h. ground (arith, q.used id, get-map_values id (watch now) s.tasks);
}

-- How many tasks a row of events spawns.
abbrev pub spawned : List Event → ℕ
spawned [] = 0
spawned (spawns _ _ ∷ es) = suc (spawned es)
spawned (completes _ _ _ ∷ es) = spawned es
spawned (cancels _ _ ∷ es) = spawned es
spawned (ticks _ ∷ es) = spawned es

-- A task that still waits in the queue was never started, so it cannot end.
abbrev pub CanHappen : SubagentManager → Event → Type 0
CanHappen s (completes id outcome now) = waits id s ≡ false
CanHappen s _ = Unit

abbrev pub CanRun : SubagentManager → List Event → Type 0
CanRun s [] = Unit
CanRun s (e ∷ es) = CanHappen s e × CanRun (step s e) es

pub spawned-cons : (e : Event) (es : List Event) → spawned (e ∷ es) ≡ spawned (e ∷ []) + spawned es
spawned-cons (spawns r now) es = omega arith
spawned-cons _ es = omega arith

drain-next_id : (s : SubagentManager) (now : ℕ) → (drain_pending s now).next_id ≡ s.next_id
drain-next_id s now =
    drain_pending_inv (λ t. t.next_id ≡ s.next_id) now
      (λ t t' p e h. unfold promote in ground (arith, check_pop-popped t t' p e)) s refl

pub step-next_id :
    (s : SubagentManager) (e : Event)
    → s.next_id + 1 < 2 ^ 64
    → (step s e).next_id ≡ s.next_id + spawned (e ∷ [])
unfolding step
step-next_id s (spawns r now) room = unfold spawn enqueue launch_task_locked in ground arith
step-next_id s (completes id outcome now) room = unfold complete in go (Dict.get id s.tasks)
  where
    go : (o : Option TaskState) → (finish_found o s id outcome now).next_id ≡ s.next_id + 0
    go none = unfold finish_found in omega (arith, drain-next_id s now)
    go (some t) =
        unfold finish_found in
        elim (Bool-cases (is_cancelled t.status)) [
          | inl e ↦ rw e (omega arith)
          | inr e ↦ rw (e, drain-next_id) (omega arith)
        ]
step-next_id s (cancels id now) room = unfold cancel_task in ground arith
step-next_id s (ticks now) room =
    unfold monitor_tick watchdog in omega (arith, drain-next_id (watchdog s now) now)

step-IsQueue :
    (s : SubagentManager) (e : Event)
    → s.next_id + 1 < 2 ^ 64
    → CanHappen s e
    → IsQueue s
    → IsQueue (step s e)
unfolding step
step-IsQueue s (spawns r now) room can q = spawn-IsQueue s r now room q
step-IsQueue s (completes id outcome now) room can q = complete-IsQueue s id outcome now can q
step-IsQueue s (cancels id now) room can q = cancel-IsQueue s id now q
step-IsQueue s (ticks now) room can q =
    unfold monitor_tick in drain-IsQueue (watchdog s now) now (watchdog-IsQueue s now q)

run-IsQueue_from :
    (es : List Event) (s : SubagentManager)
    → s.next_id + spawned es + 1 < 2 ^ 64
    → CanRun s es
    → IsQueue s
    → IsQueue (run s es)
unfolding run
run-IsQueue_from [] s room can q = q
run-IsQueue_from (e ∷ es) s room can q =
    run-IsQueue_from es (step s e)
      (omega (arith, step-next_id s e (omega arith), spawned-cons e es)) can.1
      (step-IsQueue s e (omega arith) can.0 q)

-- In every run of events that can happen, with fewer than 2 ^ 64 - 2 tasks spawned on a new manager,
-- the queue holds each task that has the status Queued, once, and no other: no queued task is lost,
-- started twice or left in the queue after it was started or cancelled.
pub run-IsQueue :
    (max_concurrent : ℕ) (agents : List String) (es : List Event) (id : ℕ)
    → spawned es + 2 < 2 ^ 64
    → CanRun (new max_concurrent agents) es
    → let s = run (new max_concurrent agents) es in
      places id s.pending ≡ (if waits id s then 1 else 0)
unfolding new
run-IsQueue max_concurrent agents es id room can =
    (run-IsQueue_from es (new max_concurrent agents) (omega arith) can
        (record { agree = λ i. refl; used = λ i h. cc })).agree
      id
