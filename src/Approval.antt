-- ===== src/Approval.antt =====
-- Human-in-the-loop approvals (src/approval.rs).
-- The `oneshot` channel of a request is known by the request's id: `sent` holds the answers that went
-- into the channels, oldest first, where the waiting tasks read them. The clock is an argument.
pub mod Accounts
pub mod Expiry
mod Tests
use openpaw.Prelude.{
  ℕ, ◌+◌, ◌-◌, ◌%◌, ◌^◌, Bool, true, false, Option, none, some, List, [], ◌∷◌, ◌++◌, map, String,
  ltb, nat_keyed, retain,
}
use openpaw.Dict

pub record PendingApproval : Type 0 where
  pub question : String
  pub task_label : String
  pub created_at : ℕ

pub record ApprovalManager : Type 0 where
  pub pending : List (ℕ × PendingApproval)
  pub next_id : ℕ  -- u64
  pub sent : List (ℕ × Bool)

unfoldable pub new : ApprovalManager
new = record { pending = []; next_id = 1; sent = [] }

-- The manager with the request entered, and its id.
unfoldable pub register : ApprovalManager → String → String → ℕ → ApprovalManager × ℕ
register s question task_label now =
    let approval : PendingApproval = record {
      question = question;
      task_label = task_label;
      created_at = now;
    } in
    (
      record s {
        next_id = (s.next_id + 1) % 2 ^ 64;
        pending = Dict.insert s.next_id approval s.pending;
      },
      s.next_id,
    )

-- The text that `respond` returns, by its parts.
pub data Reply : Type 0 where
  not_found : ℕ → Reply
  answered : ℕ → Bool → String → Reply

-- An entry taken out of the map, with its answer sent.
abbrev pub settle : ApprovalManager → ℕ → Bool → ApprovalManager
settle s id approved = record s {
  pending = Dict.remove id s.pending;
  sent = s.sent ++ (id, approved) ∷ [];
}

unfoldable pub respond : ApprovalManager → ℕ → Bool → ApprovalManager × Reply
respond s approval_id approved = elim (Dict.get approval_id s.pending) [
  | none ↦ (s, not_found approval_id)
  | some pa ↦ (settle s approval_id approved, answered approval_id approved pa.question)
]

unfoldable pub list_pending : ApprovalManager → List (ℕ × String × String)
list_pending s = map (λ e. (e.0, e.1.question, e.1.task_label)) s.pending

abbrev pub is_old : ℕ → ℕ → PendingApproval → Bool
is_old max_age_secs now pa = ltb max_age_secs (now - pa.created_at)

-- The ids that `expire_old` collects first.
abbrev pub expired_ids : ℕ → ℕ → List (ℕ × PendingApproval) → List ℕ
expired_ids max_age_secs now l = map (λ e. e.0) (retain (λ e. is_old max_age_secs now e.1) l)

-- The loop of `expire_old` over them.
unfoldable pub deny_all : ApprovalManager → List ℕ → ApprovalManager
deny_all s [] = s
deny_all s (id ∷ ids) =
    deny_all (elim (Dict.get id s.pending) [ none ↦ s | some _ ↦ settle s id false ]) ids

unfoldable pub expire_old : ApprovalManager → ℕ → ℕ → ApprovalManager
unfolding deny_all
expire_old s max_age_secs now = deny_all s (expired_ids max_age_secs now s.pending)

pub data Call : Type 0 where
  register_at : String → String → ℕ → Call
  respond_to : ℕ → Bool → Call
  expire_at : ℕ → ℕ → Call

unfoldable pub step : ApprovalManager → Call → ApprovalManager
unfolding register respond expire_old
step s (register_at question task_label now) = (register s question task_label now).0
step s (respond_to id approved) = (respond s id approved).0
step s (expire_at max_age_secs now) = expire_old s max_age_secs now

unfoldable pub run : ApprovalManager → List Call → ApprovalManager
run s [] = s
run s (c ∷ cs) = run (step s c) cs
