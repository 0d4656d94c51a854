-- ===== src/Mailbox/Tests.antt =====
-- Runs of the mailboxes (src/agent_mailbox.rs), and the theorems at them.
use openpaw.Prelude.{ℕ, ◌≡◌, refl, List, [], ◌∷◌, ◌++◌, string_keyed}
use openpaw.Mailbox.{
  AgentMailbox, MailboxMessage, Call, post_to, recv_from, new, post, recv, peek, count, step,
  list_nonempty,
}
use openpaw.Mailbox.Fifo.{waiting, posted, received, fifo}

program : Unit {0}
unfolding new post recv peek count step list_nonempty waiting posted received
program = tt

abbrev note : ℕ → MailboxMessage
note t = record { from = "worker"; content = "done"; sent_at = t }

abbrev calls : List Call
calls =
    post_to "main" (note 1)
    ∷ post_to "log" (note 2)
    ∷ post_to "main" (note 3)
    ∷ recv_from "main" 1
    ∷ post_to "main" (note 4)
    ∷ []

first_out : (received "main" new calls).1 ≡ note 1 ∷ []
unfolding program
first_out = refl

left : list_nonempty (received "main" new calls).0 ≡ ("main", 2) ∷ ("log", 1) ∷ []
unfolding program
left = refl

fifo_example :
    (received "main" new calls).1 ++ waiting (received "main" new calls).0 "main"
    ≡ posted "main" calls
fifo_example = fifo "main" calls

abbrev before : AgentMailbox
before = (received "main" new calls).0
