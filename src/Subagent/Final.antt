-- ===== src/Subagent/Final.antt =====
-- A cancelled task stays cancelled, however the sections of the drains and all else interleave
-- (src/subagent.rs), but for one section.
use openpaw.Prelude.{
  ◌⊎◌, ℕ, ◌+◌, ◌<◌, ◌≡◌, refl, sym, ap, ◌∙◌, ◌≢◌, ◌^◌, inl, inr, true, false, Option, none, some,
  List, [], ◌∷◌, nat_keyed, arith, Bool-cases, Option-cases, All, if◌then◌else◌, ◌==◌, if-has,
}
use openpaw.Dict
use openpaw.Dict.{get-insert, get-remove, get-update, get-map_values, map_option}
use openpaw.Subagent.{
  TaskStatus, queued, running, completed, failed, cancelled, TaskState, PendingTask,
  SubagentManager, is_cancelled, is_waiting,
}
use openpaw.Subagent.Launch.{Request, fresh, spawn, set_handle, enqueue, launch_task_locked}
use openpaw.Subagent.Drain.{full, empty, popped, Popped, check_pop, is_still_queued, to_running}
use openpaw.Subagent.Rounds.{check_pop-popped}
use openpaw.Subagent.Ops.{
  Outcome, finish, cancel_task, to_cancelled, to_aborted, watch, watchdog, get_task_status,
}
use openpaw.Subagent.Sections.{
  Hand, before_round, took, tested, began, after_pop, start, drain_section, end_found, end_task,
  Shared, Section, spawning, ending, cancelling, watching, draining, hand_of, drained, section,
  sections,
}

-- A write to one key that leaves a cancelled task as it is.
update_keeps :
    (id k : ℕ) (f : TaskState → TaskState) (t : TaskState) (m : List (ℕ × TaskState))
    → Dict.get id m ≡ some t
    → (k ≢ id) ⊎ (f t ≡ t)
    → Dict.get id (Dict.update k f m) ≡ some t
update_keeps id k f t m e h = ground (arith, get-update k id f m)

spawn_keeps :
    (id : ℕ) (s : SubagentManager) (r : Request) (now : ℕ) (t : TaskState)
    → id < s.next_id
    → Dict.get id s.tasks ≡ some t
    → Dict.get id (spawn s r now).0.tasks ≡ some t
unfolding spawn
spawn_keeps id s r now t lt found =
    let k = s.next_id in
    let u = fresh running (some k) r now in
    let tasks = Dict.insert k u s.tasks in
    ground (
      arith,
      get-insert k id u s.tasks,
      get-insert k id (fresh queued none r now) s.tasks,
      get-remove k id tasks,
      get-update k id (set_handle k) tasks,
    )

end_task_keeps :
    (id k : ℕ) (s : SubagentManager) (outcome : Outcome) (now : ℕ) (t : TaskState)
    → t.status ≡ cancelled
    → Dict.get id s.tasks ≡ some t
    → Dict.get id (end_task s k outcome now).tasks ≡ some t
unfolding end_task
end_task_keeps id k s outcome now t c found = go (Dict.get k s.tasks) refl
  where
    go :
        (o : Option TaskState)
        → Dict.get k s.tasks ≡ o
        → Dict.get id (end_found o s k outcome now).tasks ≡ some t
    go none e = found
    go (some v) e = elim (Bool-cases (is_cancelled v.status)) [
      | inl y ↦ rw y found
      | inr n ↦
          rw n
            (update_keeps id k (finish outcome now) t s.tasks found (inl (λ same. ground (arith))))
    ]

cancel_keeps :
    (id k : ℕ) (s : SubagentManager) (now : ℕ) (t : TaskState)
    → t.status ≡ cancelled
    → Dict.get id s.tasks ≡ some t
    → Dict.get id (cancel_task s k now).0.tasks ≡ some t
unfolding cancel_task
cancel_keeps id k s now t c found =
    ground
      (arith, get-update k id (to_cancelled now) s.tasks, get-update k id (to_aborted now) s.tasks)

watchdog_keeps :
    (id : ℕ) (s : SubagentManager) (now : ℕ) (t : TaskState)
    → t.status ≡ cancelled
    → Dict.get id s.tasks ≡ some t
    → Dict.get id (watchdog s now).tasks ≡ some t
unfolding watchdog
watchdog_keeps id s now t c found = ground (arith, get-map_values id (watch now) s.tasks)

-- A thread does not hold the task between the test that it is queued and the end of its promotion.
abbrev pub Spares : ℕ → Hand → Type 0
Spares id before_round = Unit
Spares id (took p) = Unit
Spares id (tested p) = p.task_id ≢ id
Spares id (began p) = p.task_id ≢ id

-- The section of a drain keeps the entry, and the thread still does not hold the task.
abbrev KeepsFinal : ℕ → TaskState → ℕ → Hand × SubagentManager → Type 0
KeepsFinal id t next (hand, s) =
    Spares id hand × (Dict.get id s.tasks ≡ some t) × (s.next_id ≡ next)

pop_keeps :
    (id : ℕ) (s : SubagentManager) (t : TaskState) (o : Popped)
    → check_pop s ≡ o
    → Dict.get id s.tasks ≡ some t
    → KeepsFinal id t s.next_id (after_pop o s)
pop_keeps id s t full e h = (tt, h, refl)
pop_keeps id s t empty e h = (tt, h, refl)
pop_keeps id s t (popped p s') e h =
    let (_, _, tasks, _, next) = check_pop-popped s s' p e in (tt, rw tasks h, next)

cancelled-not_queued :
    (id : ℕ) (s : SubagentManager) (t : TaskState)
    → t.status ≡ cancelled
    → Dict.get id s.tasks ≡ some t
    → is_still_queued s id ≡ false
unfolding is_still_queued
cancelled-not_queued id s t c h = rw h (ground (arith, c))

-- A cancelled task is not found queued.
test_keeps :
    (id : ℕ) (s : SubagentManager) (p : PendingTask) (t : TaskState)
    → t.status ≡ cancelled
    → Dict.get id s.tasks ≡ some t
    → Spares id (if is_still_queued s p.task_id then tested p else before_round)
test_keeps id s p t c h = elim (Bool-cases (is_still_queued s p.task_id)) [
  | inl y ↦
      rw y (λ e. ground (arith, sym y ∙ ap (is_still_queued s) e ∙ cancelled-not_queued id s t c h))
  | inr n ↦ rw n tt
]

drain_section_keeps :
    (id : ℕ) (hand : Hand) (s : SubagentManager) (now : ℕ) (t : TaskState)
    → t.status ≡ cancelled
    → Spares id hand
    → Dict.get id s.tasks ≡ some t
    → KeepsFinal id t s.next_id (drain_section hand s now)
unfolding drain_section
drain_section_keeps id before_round s now t c f h = pop_keeps id s t (check_pop s) refl h
drain_section_keeps id (took p) s now t c f h = (test_keeps id s p t c h, h, refl)
drain_section_keeps id (tested p) s now t c f h =
    (f, update_keeps id p.task_id (to_running p.task_id now) t s.tasks h (inl f), refl)
drain_section_keeps id (began p) s now t c f h =
    (tt, update_keeps id p.task_id (set_handle p.task_id) t s.tasks h (inl f), refl)

All-get :
    (P : Hand → Type 0) (thread : ℕ) (hands : List (ℕ × Hand))
    → P before_round
    → All (λ h. P h.1) hands
    → P (hand_of (Dict.get thread hands))
All-get P thread [] h hs = h
All-get P thread ((i, hand) ∷ hands) h hs =
    if-has (λ o. P (hand_of o)) (i == thread) (some hand) (Dict.get thread hands) hs.0
      (λ _. All-get P thread hands h hs.1)

All-insert :
    (P : Hand → Type 0) (thread : ℕ) (hand : Hand) (hands : List (ℕ × Hand))
    → P hand
    → All (λ h. P h.1) hands
    → All (λ h. P h.1) (Dict.insert thread hand hands)
All-insert P thread hand [] h hs = (h, tt)
All-insert P thread hand ((i, other) ∷ hands) h hs =
    if-has (All (λ h. P h.1)) (i == thread) ((thread, hand) ∷ hands)
      ((i, other) ∷ Dict.insert thread hand hands) (h, hs.1)
      (λ _. (hs.0, All-insert P thread hand hands h hs.1))

-- A cancelled task whose id was given out, and that no thread is about to set running.
abbrev IsFinal : ℕ → TaskState → Shared → Type 0
IsFinal id t x =
    (id < x.manager.next_id)
    × All (λ h. Spares id h.1) x.hands
    × (Dict.get id x.manager.tasks ≡ some t)

abbrev pub spawnings : List Section → ℕ
spawnings [] = 0
spawnings (spawning r now ∷ es) = 1 + spawnings es
spawnings (ending task_id outcome now ∷ es) = spawnings es
spawnings (cancelling task_id now ∷ es) = spawnings es
spawnings (watching now ∷ es) = spawnings es
spawnings (draining thread now ∷ es) = spawnings es

spawnings-cons :
    (e : Section) (es : List Section) → spawnings (e ∷ es) ≡ spawnings (e ∷ []) + spawnings es
spawnings-cons (spawning r now) es = omega arith
spawnings-cons (ending task_id outcome now) es = omega arith
spawnings-cons (cancelling task_id now) es = omega arith
spawnings-cons (watching now) es = omega arith
spawnings-cons (draining thread now) es = omega arith

end_task-next_id :
    (o : Option TaskState) (s : SubagentManager) (k : ℕ) (outcome : Outcome) (now : ℕ)
    → (end_found o s k outcome now).next_id ≡ s.next_id
end_task-next_id none s k outcome now = refl
end_task-next_id (some v) s k outcome now = ground arith

spawn-next_id :
    (s : SubagentManager) (r : Request) (now : ℕ)
    → s.next_id + 1 < 2 ^ 64
    → (spawn s r now).0.next_id ≡ s.next_id + 1
unfolding spawn enqueue launch_task_locked
spawn-next_id s r now room = ground arith

cancel_task-next_id :
    (s : SubagentManager) (k now : ℕ) → (cancel_task s k now).0.next_id ≡ s.next_id
unfolding cancel_task
cancel_task-next_id s k now = ground arith

drained-IsFinal :
    (id thread next : ℕ) (t : TaskState) (hands : List (ℕ × Hand)) (o : Hand × SubagentManager)
    → id < next
    → All (λ h. Spares id h.1) hands
    → KeepsFinal id t next o
    → IsFinal id t (drained thread hands o) × ((drained thread hands o).manager.next_id ≡ next)
drained-IsFinal id thread next t hands (hand, s) lt spared (free, kept, same) =
    ((rw same lt, All-insert (Spares id) thread hand hands free spared, kept), same)

section-IsFinal :
    (id : ℕ) (t : TaskState) (x : Shared) (e : Section)
    → x.manager.next_id + 1 < 2 ^ 64
    → t.status ≡ cancelled
    → IsFinal id t x
    → IsFinal id t (section x e)
      × ((section x e).manager.next_id ≡ x.manager.next_id + spawnings (e ∷ []))
unfolding section
section-IsFinal id t x (spawning r now) room c (lt, spared, kept) =
    let next = spawn-next_id x.manager r now room in
    ((omega (arith, lt, next), spared, spawn_keeps id x.manager r now t lt kept), next)
section-IsFinal id t x (ending k outcome now) room c (lt, spared, kept) =
    let next = end_task-next_id (Dict.get k x.manager.tasks) x.manager k outcome now in
    unfold end_task in
    (
      (omega (arith, lt, next), spared, end_task_keeps id k x.manager outcome now t c kept),
      omega (arith, next),
    )
section-IsFinal id t x (cancelling k now) room c (lt, spared, kept) =
    let next = cancel_task-next_id x.manager k now in
    (
      (omega (arith, lt, next), spared, cancel_keeps id k x.manager now t c kept),
      omega (arith, next),
    )
section-IsFinal id t x (watching now) room c (lt, spared, kept) =
    let kept' = watchdog_keeps id x.manager now t c kept in
    unfold watchdog in ((lt, spared, kept'), omega arith)
section-IsFinal id t x (draining thread now) room c (lt, spared, kept) =
    let hand = hand_of (Dict.get thread x.hands) in
    let free : Spares id hand = All-get (Spares id) thread x.hands tt spared in
    let done =
      drained-IsFinal id thread x.manager.next_id t x.hands (drain_section hand x.manager now) lt
        spared (drain_section_keeps id hand x.manager now t c free kept) in
    (done.0, omega (arith, done.1))

-- A cancelled task stays exactly as it is, however the lock sections of drains, ends of tasks, spawns,
-- cancellations and watchdogs interleave, if no drain stands between its test that the task is queued
-- and the end of its promotion (and while ids do not wrap around): neither the end of its run, nor the
-- watchdog, nor the queue brings it back or changes its entry.
pub sections_keep :
    (es : List Section) (id : ℕ) (x : Shared) (t : TaskState)
    → id < x.manager.next_id
    → x.manager.next_id + spawnings es + 1 < 2 ^ 64
    → t.status ≡ cancelled
    → All (λ h. Spares id h.1) x.hands
    → Dict.get id x.manager.tasks ≡ some t
    → Dict.get id (sections x es).manager.tasks ≡ some t
unfolding sections
sections_keep [] id x t lt room c spared kept = kept
sections_keep (e ∷ es) id x t lt room c spared kept =
    let next = section-IsFinal id t x e (omega arith) c (lt, spared, kept) in
    let (lt', spared', kept') = next.0 in
    sections_keep es id (section x e) t lt' (omega (arith, next.1, spawnings-cons e es)) c spared'
      kept'

is_waiting-queued : (status : TaskStatus) → is_waiting status ≡ true → status ≡ queued
is_waiting-queued queued h = refl
is_waiting-queued running h = ground (arith, h)
is_waiting-queued completed h = ground (arith, h)
is_waiting-queued failed h = ground (arith, h)
is_waiting-queued cancelled h = ground (arith, h)

cancel-queued :
    (s : SubagentManager) (id now : ℕ) (u : TaskState)
    → Dict.get id s.tasks ≡ some u
    → u.status ≡ queued
    → Dict.get id (cancel_task s id now).0.tasks ≡ some (to_cancelled now u)
unfolding cancel_task
cancel-queued s id now u h q = ground (arith, get-update id id (to_cancelled now) s.tasks)

start-running :
    (s : SubagentManager) (p : PendingTask) (now : ℕ) (u : TaskState)
    → Dict.get p.task_id s.tasks ≡ some u
    → get_task_status (start s p now) p.task_id ≡ some running
unfolding get_task_status
start-running s p now u h =
    ground (arith, get-update p.task_id p.task_id (to_running p.task_id now) s.tasks, h)

-- The exception: a queued task that is cancelled after a drain has tested that it is queued is set
-- running by that drain's next section, and its cancellation is lost.
pub cancel-revived :
    (s : SubagentManager) (p : PendingTask) (now later : ℕ)
    → is_still_queued s p.task_id ≡ true
    → let (hand, s1) = drain_section (took p) s now in
      let s2 = (cancel_task s1 p.task_id now).0 in
      let (hand', s3) = drain_section hand s2 later in
      (get_task_status s2 p.task_id ≡ some cancelled)
      × (get_task_status s3 p.task_id ≡ some running)
cancel-revived s p now later h = elim (Option-cases (Dict.get p.task_id s.tasks)) [
  | inl e ↦ absurd (unfold is_still_queued in ground (arith, h, e))
  | inr (u, e) ↦
      let waits : is_waiting u.status ≡ true = unfold is_still_queued in ground (arith, h, e) in
      let gone = cancel-queued s p.task_id now u e (is_waiting-queued u.status waits) in
      unfold drain_section in
      rw h (
        unfold get_task_status in rw gone refl,
        start-running (cancel_task s p.task_id now).0 p later (to_cancelled now u) gone,
      )
]
