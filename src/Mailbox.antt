-- ===== src/Mailbox.antt =====
-- The mailboxes of the agents (src/agent_mailbox.rs). The clock is an argument.
pub mod Fifo
mod Tests
use openpaw.Prelude.{
  ℕ, ◌-◌, min, Bool, true, false, not, Option, none, some, List, [], ◌∷◌, ◌++◌, map, String,
  string_keyed, length, take, drop, retain, ltb,
}
use openpaw.Dict

pub record MailboxMessage : Type 0 where
  pub from : String
  pub content : String
  pub sent_at : ℕ

pub record AgentMailbox : Type 0 where
  pub boxes : List (String × List MailboxMessage)

unfoldable pub new : AgentMailbox
new = record { boxes = [] }

abbrev pub queue_or_new : Option (List MailboxMessage) → List MailboxMessage
queue_or_new none = []
queue_or_new (some q) = q

unfoldable pub post : AgentMailbox → String → String → String → ℕ → AgentMailbox
post s mailbox from content now =
    let msg : MailboxMessage = record { from = from; content = content; sent_at = now } in
    let queue = queue_or_new (Dict.get mailbox s.boxes) in
    record s { boxes = Dict.insert mailbox (queue ++ msg ∷ []) s.boxes }

-- Up to `limit` messages are taken out.
unfoldable pub recv : AgentMailbox → String → ℕ → AgentMailbox × List MailboxMessage
recv s mailbox limit = elim (Dict.get mailbox s.boxes) [
  | none ↦ (s, [])
  | some queue ↦
      let n = min limit (length queue) in
      (record s { boxes = Dict.insert mailbox (drop n queue) s.boxes }, take n queue)
]

unfoldable pub peek : AgentMailbox → String → ℕ → List MailboxMessage
peek s mailbox limit = elim (Dict.get mailbox s.boxes) [ none ↦ [] | some queue ↦ take limit queue ]

unfoldable pub count : AgentMailbox → String → ℕ
count s mailbox = elim (Dict.get mailbox s.boxes) [ none ↦ 0 | some queue ↦ length queue ]

unfoldable pub list_nonempty : AgentMailbox → List (String × ℕ)
list_nonempty s = map (λ e. (e.0, length e.1)) (retain (λ e. ltb 0 (length e.1)) s.boxes)

pub data Call : Type 0 where
  post_to : String → MailboxMessage → Call
  recv_from : String → ℕ → Call

-- One call: the mailboxes after it, and the messages that it returns.
unfoldable pub step : AgentMailbox → Call → AgentMailbox × List MailboxMessage
unfolding post recv
step s (post_to mailbox m) = (post s mailbox m.from m.content m.sent_at, [])
step s (recv_from mailbox limit) = recv s mailbox limit
