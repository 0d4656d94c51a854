-- ===== src/Approval/Accounts.antt =====
-- Every request is pending or answered, and answered once (src/approval.rs).
use openpaw.Prelude.{
  suc, Option-cases, inl, inr, ◌∙◌, String, ℕ, ◌+◌, ◌<◌, ◌≡◌, refl, ◌^◌, Bool, false, some, List,
  [], ◌∷◌, arith, ltb, leb, ◌==◌, ◌&&◌, if◌then◌else◌, count, count-append, nat_keyed,
}
use openpaw.Dict
use openpaw.Approval.{
  ApprovalManager, Call, register_at, respond_to, expire_at, PendingApproval, new, register,
  respond, settle, expired_ids, deny_all, step, run,
}

-- How many entries of a list of pairs carry the id.
abbrev pub entries {ℓ} : {A : Type ℓ} → ℕ → List (ℕ × A) → ℕ
entries i = count (λ e. e.0 == i)

-- The pending requests and the answers sent, of one id.
abbrev pub accounts : ℕ → ApprovalManager → ℕ
accounts i s = entries i s.pending + entries i s.sent

-- Each id given out is accounted for once, and no other.
abbrev pub IsBalanced : ApprovalManager → Type 0
IsBalanced s = (i : ℕ) → accounts i s ≡ (if leb 1 i && ltb i s.next_id then 1 else 0)

module _ {ℓ} {A : Type ℓ} where
  entries-remove :
      (k i : ℕ) (m : List (ℕ × A))
      → entries i (Dict.remove k m) ≡ (if k == i then 0 else entries i m)
  entries-remove k i [] = ground arith
  entries-remove k i ((j, v) ∷ m) = ground (arith, entries-remove k i m)

  entries-insert :
      (k i : ℕ) (v : A) (m : List (ℕ × A))
      → entries k m ≡ 0
      → entries i (Dict.insert k v m) ≡ entries i m + (if k == i then 1 else 0)
  entries-insert k i v [] h = ground arith
  entries-insert k i v ((j, w) ∷ m) h = ground (arith, entries-insert k i v m)

  pub entries-get : (k : ℕ) (v : A) (m : List (ℕ × A)) → Dict.get k m ≡ some v → 0 < entries k m
  entries-get k v [] h = cc
  entries-get k v ((j, w) ∷ m) h = ground (arith, entries-get k v m)

accounts-settle :
    (s : ApprovalManager) (k i : ℕ) (approved : Bool) (v : PendingApproval)
    → IsBalanced s
    → Dict.get k s.pending ≡ some v
    → accounts i (settle s k approved) ≡ accounts i s
accounts-settle s k i approved v b h = ground (
  arith,
  b k,
  entries-get k v s.pending,
  entries-remove k i s.pending,
  count-append (λ e. e.0 == i) s.sent ((k, approved) ∷ []),
)

settle-IsBalanced :
    (s : ApprovalManager) (k : ℕ) (approved : Bool) (v : PendingApproval)
    → IsBalanced s
    → Dict.get k s.pending ≡ some v
    → IsBalanced (settle s k approved)
settle-IsBalanced s k approved v b h = λ i. accounts-settle s k i approved v b h ∙ b i

respond-IsBalanced :
    (s : ApprovalManager) (k : ℕ) (approved : Bool)
    → IsBalanced s
    → IsBalanced (respond s k approved).0
unfolding respond
respond-IsBalanced s k approved b = elim (Option-cases (Dict.get k s.pending)) [
  | inl e ↦ rw (e, respond) b
  | inr (v, e) ↦ rw (e, respond) (settle-IsBalanced s k approved v b e)
]

deny_all-IsBalanced :
    (s : ApprovalManager) (ids : List ℕ) → IsBalanced s → IsBalanced (deny_all s ids)
unfolding deny_all
deny_all-IsBalanced s [] b = b
deny_all-IsBalanced s (k ∷ ids) b = elim (Option-cases (Dict.get k s.pending)) [
  | inl e ↦ rw (e, deny_all) (deny_all-IsBalanced s ids b)
  | inr (v, e) ↦
      rw (e, deny_all)
        (deny_all-IsBalanced (settle s k false) ids (settle-IsBalanced s k false v b e))
]

register-IsBalanced :
    (s : ApprovalManager) (question label : String) (now : ℕ)
    → 0 < s.next_id
    → s.next_id + 1 < 2 ^ 64
    → IsBalanced s
    → IsBalanced (register s question label now).0
unfolding register
register-IsBalanced s question label now pos room b = λ i.
    let pa : PendingApproval = record {
      question = question;
      task_label = label;
      created_at = now;
    } in
    ground (arith, b i, b s.next_id, entries-insert s.next_id i pa s.pending)

-- How many requests a row of calls registers.
abbrev pub registers : List Call → ℕ
registers [] = 0
registers (register_at _ _ _ ∷ cs) = suc (registers cs)
registers (respond_to _ _ ∷ cs) = registers cs
registers (expire_at _ _ ∷ cs) = registers cs

deny_all-next_id : (s : ApprovalManager) (ids : List ℕ) → (deny_all s ids).next_id ≡ s.next_id
unfolding deny_all
deny_all-next_id s [] = refl
deny_all-next_id s (k ∷ ids) = elim (Option-cases (Dict.get k s.pending)) [
  | inl e ↦ rw (e, deny_all) (deny_all-next_id s ids)
  | inr (v, e) ↦ rw (e, deny_all) (deny_all-next_id (settle s k false) ids)
]

respond-next_id :
    (s : ApprovalManager) (k : ℕ) (approved : Bool) → (respond s k approved).0.next_id ≡ s.next_id
unfolding respond
respond-next_id s k approved = ground arith

run-IsBalanced :
    (cs : List Call) (s : ApprovalManager)
    → 0 < s.next_id
    → s.next_id + registers cs < 2 ^ 64
    → IsBalanced s
    → IsBalanced (run s cs) × ((run s cs).next_id ≡ s.next_id + registers cs)
unfolding run step
run-IsBalanced [] s pos room b = (b, omega arith)
run-IsBalanced (register_at question label now ∷ cs) s pos room b =
    let s' = (register s question label now).0 in
    let next : s'.next_id ≡ s.next_id + 1 = unfold register in omega arith in
    let (balanced, id) =
      run-IsBalanced cs s' (omega arith) (omega arith)
        (register-IsBalanced s question label now pos (omega arith) b) in
    (balanced, omega arith)
run-IsBalanced (respond_to k approved ∷ cs) s pos room b =
    let same = respond-next_id s k approved in
    let (balanced, id) =
      run-IsBalanced cs (respond s k approved).0 (omega arith) (omega arith)
        (respond-IsBalanced s k approved b) in
    (balanced, omega arith)
run-IsBalanced (expire_at age now ∷ cs) s pos room b =
    let ids = expired_ids age now s.pending in
    let same = deny_all-next_id s ids in
    let (balanced, id) =
      run-IsBalanced cs (deny_all s ids) (omega arith) (omega arith)
        (deny_all-IsBalanced s ids b) in
    (balanced, omega arith)

new-IsBalanced : IsBalanced new
unfolding new
new-IsBalanced i = ground arith

-- After any row of calls on a new manager that registers fewer than 2 ^ 64 - 1 requests, each id that
-- was given out is pending or was answered, once in all, and no other id is either.
pub run-accounts :
    (cs : List Call) (i : ℕ)
    → registers cs + 1 < 2 ^ 64
    → accounts i (run new cs) ≡ (if leb 1 i && leb i (registers cs) then 1 else 0)
unfolding new
run-accounts cs i room =
    let (balanced, id) = run-IsBalanced cs new (omega arith) (omega arith) new-IsBalanced in
    ground (arith, balanced i)

pub reachable-IsBalanced : (cs : List Call) → registers cs + 1 < 2 ^ 64 → IsBalanced (run new cs)
unfolding new
reachable-IsBalanced cs room = (run-IsBalanced cs new (omega arith) (omega arith) new-IsBalanced).0
