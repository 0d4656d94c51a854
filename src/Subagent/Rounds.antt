-- ===== src/Subagent/Rounds.antt =====
-- The loop of `drain_pending` (src/subagent.rs): a rule for invariants, and where it stops.
use openpaw.Prelude.{
  ℕ, zero, suc, ◌<◌, ◌≤◌, ◌≡◌, refl, ◌⊎◌, inl, inr, [], ◌∷◌, nat_keyed, length, arith, ap,
}
use openpaw.Subagent.{PendingTask, SubagentManager}
use openpaw.Subagent.Launch.{running_count}
use openpaw.Subagent.Drain.{
  Popped, full, empty, popped, check_pop, promote, drain, drain_pending, settle,
}

-- What the first section of a round hands on.
pub check_pop-popped :
    (s s' : SubagentManager) (p : PendingTask)
    → check_pop s ≡ popped p s'
    → (running_count s.tasks < s.max_concurrent)
      × (s.pending ≡ p ∷ s'.pending)
      × (s'.tasks ≡ s.tasks)
      × (s'.max_concurrent ≡ s.max_concurrent)
      × (s'.next_id ≡ s.next_id)
unfolding check_pop
check_pop-popped s s' p h = ground arith

module _ {κ} (P : SubagentManager → Type κ) (now : ℕ)
    (round : (s s' : SubagentManager) (p : PendingTask)
      → check_pop s ≡ popped p s'
      → P s
      → P (settle s' p now)) where
  drain_inv : (fuel : ℕ) (s : SubagentManager) → P s → P (drain fuel s now)
  unfolding drain
  drain_inv zero s h = h
  drain_inv (suc fuel) s h = go (check_pop s) refl (drain_inv fuel)
    where
      go :
          (r : Popped)
          → check_pop s ≡ r
          → ((s' : SubagentManager) → P s' → P (drain fuel s' now))
          → P (elim r [ full ↦ s | empty ↦ s | popped p s' ↦ drain fuel (settle s' p now) now ])
      go full e rest = h
      go empty e rest = h
      go (popped p s') e rest = rest (settle s' p now) (round s s' p e h)

  pub drain_pending_inv : (s : SubagentManager) → P s → P (drain_pending s now)
  unfolding drain_pending
  drain_pending_inv s h = drain_inv (suc (length s.pending)) s h

settle-pending :
    (s : SubagentManager) (p : PendingTask) (now : ℕ) → (settle s p now).pending ≡ s.pending
unfolding promote
settle-pending s p now = ground arith

-- The loop has stopped by itself: no slot is free or no task waits.
abbrev pub Stopped : SubagentManager → Type 0
Stopped s = (check_pop s ≡ full) ⊎ (check_pop s ≡ empty)

drain-Stopped :
    (fuel : ℕ) (s : SubagentManager) (now : ℕ)
    → length s.pending < fuel
    → Stopped (drain fuel s now)
unfolding drain
drain-Stopped zero s now h = absurd (omega arith)
drain-Stopped (suc fuel) s now h = go (check_pop s) refl (λ s'. drain-Stopped fuel s' now)
  where
    go :
        (r : Popped)
        → check_pop s ≡ r
        → ((s' : SubagentManager) → length s'.pending < fuel → Stopped (drain fuel s' now))
        → Stopped (elim r [ full ↦ s | empty ↦ s | popped p s' ↦ drain fuel (settle s' p now) now ])
    go full e rest = inl e
    go empty e rest = inr e
    go (popped p s') e rest = rest (settle s' p now) (
        omega (
          arith,
          ap {B = ℕ} length (settle-pending s' p now),
          ap {B = ℕ} length (check_pop-popped s s' p e).1,
        ))

-- The fuel of `drain_pending` is enough: when it returns, every slot is taken or the queue is empty.
pub drain_pending-full :
    (s : SubagentManager) (now : ℕ)
    → let t = drain_pending s now in (t.max_concurrent ≤ running_count t.tasks) ⊎ (t.pending ≡ [])
drain_pending-full s now =
    stopped (drain_pending s now)
      (unfold drain_pending in drain-Stopped (suc (length s.pending)) s now (omega arith))
  where
    stopped :
        (t : SubagentManager)
        → Stopped t
        → (t.max_concurrent ≤ running_count t.tasks) ⊎ (t.pending ≡ [])
    stopped t h = unfold check_pop in ground arith
