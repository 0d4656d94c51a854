-- ===== src/Approval/Expiry.antt =====
-- What an answer and an expiry do to each request (src/approval.rs).
use openpaw.Prelude.{
  ◌∙◌, ◌≢◌, ℕ, ◌+◌, ◌-◌, ◌≤◌, ◌<◌, ◌≡◌, refl, ◌^◌, Bool, false, Option, none, some, List, [], ◌∷◌,
  ◌++◌, arith, ltb, ◌==◌, ◌&&◌, if◌then◌else◌, any, nat_keyed, is_some, Option-cases, inl, inr,
}
use openpaw.Dict
use openpaw.Dict.{get-remove}
use openpaw.Approval.{
  ApprovalManager, PendingApproval, Call, not_found, answered, new, respond, settle, is_old,
  expire_old, expired_ids, deny_all, run,
}
use openpaw.Approval.Accounts.{entries, IsBalanced, registers, reachable-IsBalanced, entries-get}

-- The answer in a channel: the first that was sent.
abbrev pub answer_of : ℕ → ApprovalManager → Option Bool
answer_of i s = Dict.get i s.sent

abbrev or_else {ℓ} : {A : Type ℓ} → Option A → Option A → Option A
or_else (some a) o = some a
or_else none o = o

get-append_one :
    (i k : ℕ) (b : Bool) (l : List (ℕ × Bool))
    → Dict.get i (l ++ (k, b) ∷ []) ≡ or_else (Dict.get i l) (if k == i then some b else none)
get-append_one i k b [] = ground arith
get-append_one i k b ((j, c) ∷ l) = ground (arith, get-append_one i k b l)

entries-zero {ℓ} : {A : Type ℓ} (i : ℕ) (m : List (ℕ × A)) → entries i m ≡ 0 → Dict.get i m ≡ none
entries-zero i [] h = refl
entries-zero i ((j, v) ∷ m) h = ground (arith, entries-zero i m)

expired-none :
    (age now i : ℕ) (m : List (ℕ × PendingApproval))
    → entries i m ≡ 0
    → any (λ j. j == i) (expired_ids age now m) ≡ false
expired-none age now i [] h = refl
expired-none age now i ((j, v) ∷ m) h = ground (arith, expired-none age now i m)

-- With one entry at most, an id is collected exactly if its request is old.
expired-any :
    (age now i : ℕ) (v : PendingApproval) (m : List (ℕ × PendingApproval))
    → entries i m ≤ 1
    → Dict.get i m ≡ some v
    → any (λ j. j == i) (expired_ids age now m) ≡ is_old age now v
expired-any age now i v [] one h = cc
expired-any age now i v ((j, w) ∷ m) one h =
    ground (arith, expired-none age now i m, expired-any age now i v m)

deny_all-pending :
    (s : ApprovalManager) (ids : List ℕ) (i : ℕ)
    → Dict.get i (deny_all s ids).pending
      ≡ (if any (λ j. j == i) ids then none else Dict.get i s.pending)
unfolding deny_all
deny_all-pending s [] i = refl
deny_all-pending s (k ∷ ids) i = elim (Option-cases (Dict.get k s.pending)) [
  | inl e ↦ rw (e, deny_all) (ground (arith, deny_all-pending s ids i))
  | inr (v, e) ↦
      rw (e, deny_all)
        (ground (arith, deny_all-pending (settle s k false) ids i, get-remove k i s.pending))
]

deny_all-sent :
    (s : ApprovalManager) (ids : List ℕ) (i : ℕ)
    → answer_of i (deny_all s ids)
      ≡ or_else
          (answer_of i s)
          (if any (λ j. j == i) ids && is_some (Dict.get i s.pending) then some false else none)
unfolding deny_all
deny_all-sent s [] i = ground arith
deny_all-sent s (k ∷ ids) i = elim (Option-cases (Dict.get k s.pending)) [
  | inl e ↦ rw (e, deny_all) (ground (arith, deny_all-sent s ids i))
  | inr (v, e) ↦
      rw (e, deny_all)
        (ground (
          arith,
          deny_all-sent (settle s k false) ids i,
          get-remove k i s.pending,
          get-append_one i k false s.sent,
        ))
]

balanced-le : (s : ApprovalManager) (i : ℕ) → IsBalanced s → entries i s.pending ≤ 1
balanced-le s i b = ground (arith, b i)

balanced-sent :
    (s : ApprovalManager) (i : ℕ) (pa : PendingApproval)
    → IsBalanced s
    → Dict.get i s.pending ≡ some pa
    → answer_of i s ≡ none
balanced-sent s i pa b e = entries-zero i s.sent (ground (arith, b i, entries-get i pa s.pending))

-- What `expire_old` leaves of one request that was pending.
expire_pending :
    (s : ApprovalManager) (age now i : ℕ) (pa : PendingApproval)
    → IsBalanced s
    → Dict.get i s.pending ≡ some pa
    → (Dict.get i (expire_old s age now).pending ≡ (if is_old age now pa then none else some pa))
      × (answer_of i (expire_old s age now) ≡ (if is_old age now pa then some false else none))
unfolding expire_old
expire_pending s age now i pa b e =
    let ids = expired_ids age now s.pending in
    let old = expired-any age now i pa s.pending (balanced-le s i b) e in
    (
      deny_all-pending s ids i ∙ rw (old, e),
      deny_all-sent s ids i ∙ rw (old, e, balanced-sent s i pa b e) (ground arith),
    )

-- On a manager that any row of calls leaves (of fewer than 2 ^ 64 - 1 requests), `expire_old` takes
-- out exactly the pending requests older than `age` seconds, each with the answer `false`; a younger
-- one stays pending, unanswered.
pub expire_old_lem :
    (cs : List Call) (age now i : ℕ) (pa : PendingApproval)
    → registers cs + 1 < 2 ^ 64
    → Dict.get i (run new cs).pending ≡ some pa
    → let s = expire_old (run new cs) age now in
      (Dict.get i s.pending ≡ (if ltb age (now - pa.created_at) then none else some pa))
      × (answer_of i s ≡ (if ltb age (now - pa.created_at) then some false else none))
expire_old_lem cs age now i pa room e =
    expire_pending (run new cs) age now i pa (reachable-IsBalanced cs room) e

-- An answer reaches the request it names and no other: it is sent to that request's channel, the
-- request is pending no more, a second answer to it is refused and changes nothing, and every other
-- request stays as it was.
pub respond_once :
    (cs : List Call) (i j : ℕ) (approved again : Bool) (pa : PendingApproval)
    → registers cs + 1 < 2 ^ 64
    → Dict.get i (run new cs).pending ≡ some pa
    → i ≢ j
    → let (s, reply) = respond (run new cs) i approved in
      (reply ≡ answered i approved pa.question)
      × (answer_of i s ≡ some approved)
      × (respond s i again ≡ (s, not_found i))
      × (Dict.get j s.pending ≡ Dict.get j (run new cs).pending)
      × (answer_of j s ≡ answer_of j (run new cs))
unfolding respond
respond_once cs i j approved again pa room e ne =
    let s = run new cs in
    let unsent = balanced-sent s i pa (reachable-IsBalanced cs room) e in
    ground (
      arith,
      get-remove i i s.pending,
      get-remove i j s.pending,
      get-append_one i i approved s.sent,
      get-append_one j i approved s.sent,
    )
