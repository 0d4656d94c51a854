-- ===== src/Approval/Tests.antt =====
-- A run of the approval manager (src/approval.rs), and its theorems at it.
use openpaw.Prelude.{
  ◌≡◌, refl, true, false, List, [], ◌∷◌, arith, leb, ◌&&◌, if◌then◌else◌, nat_keyed,
}
use openpaw.Approval.{
  PendingApproval, Call, register_at, respond_to, new, register, respond, expire_old, run, step,
  list_pending,
}
use openpaw.Approval.Accounts.{accounts, registers, run-accounts}

program : Unit {0}
unfolding new register respond expire_old run step list_pending
program = tt

abbrev calls : List Call
calls =
    register_at "Delete?" "cleanup" 100 ∷ register_at "Send?" "mail" 160 ∷ respond_to 1 true ∷ []

abbrev mail : PendingApproval
mail = record { question = "Send?"; task_label = "mail"; created_at = 160 }

still_pending : list_pending (run new calls) ≡ (2, "Send?", "mail") ∷ []
unfolding program
still_pending = refl

both_answered : (expire_old (run new calls) 60 221).sent ≡ (1, true) ∷ (2, false) ∷ []
unfolding program
both_answered = refl

run-accounts_example :
    accounts 2 (run new calls) ≡ (if leb 1 2 && leb 2 (registers calls) then 1 else 0)
run-accounts_example = run-accounts calls 2 (omega arith)
