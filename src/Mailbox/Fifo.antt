-- ===== src/Mailbox/Fifo.antt =====
-- Each mailbox is a queue (src/agent_mailbox.rs): nothing is lost, doubled or reordered.
use openpaw.Prelude.{
  take-nil, length-drop, ◌-◌, zero, suc, ℕ, ◌≡◌, ◌∙◌, sym, ap, ◌≢◌, min, List, [], ◌∷◌, ◌++◌,
  String, string_keyed, ◌=?◌, arith, length, take, drop, if◌then◌else◌, take-append-drop,
  Option-cases, inl, inr, Bool-cases, =?_refl,
}
use mathlib.Core.List.{append_assoc, append-nil}
use openpaw.Dict
use openpaw.Dict.{get-insert}
use openpaw.Mailbox.{
  AgentMailbox, MailboxMessage, Call, post_to, recv_from, new, post, recv, peek, count, step,
  queue_or_new,
}

-- The messages that wait in a mailbox.
unfoldable pub waiting : AgentMailbox → String → List MailboxMessage
waiting s mailbox = queue_or_new (Dict.get mailbox s.boxes)

-- The messages of a row of calls that were posted to a mailbox.
unfoldable pub posted : String → List Call → List MailboxMessage
posted b [] = []
posted b (post_to mailbox m ∷ cs) = if mailbox =? b then m ∷ posted b cs else posted b cs
posted b (recv_from _ _ ∷ cs) = posted b cs

-- The mailboxes after a row of calls, and what was received from a mailbox, in order.
unfoldable pub received : String → AgentMailbox → List Call → AgentMailbox × List MailboxMessage
received b s [] = (s, [])
received b s (post_to mailbox m ∷ cs) = received b (step s (post_to mailbox m)).0 cs
received b s (recv_from mailbox limit ∷ cs) =
    let (s', got) = step s (recv_from mailbox limit) in
    let (s'', later) = received b s' cs in (s'', if mailbox =? b then got ++ later else later)

waiting-post :
    (s : AgentMailbox) (mailbox b : String) (m : MailboxMessage)
    → waiting (post s mailbox m.from m.content m.sent_at) b
      ≡ (if mailbox =? b then waiting s b ++ m ∷ [] else waiting s b)
unfolding waiting post
waiting-post s mailbox b m = ground (
  arith,
  get-insert mailbox b (queue_or_new (Dict.get mailbox s.boxes) ++ m ∷ []) s.boxes,
  string_keyed.beq_iff mailbox b,
)

pub take-min {ℓ} : {A : Type ℓ} (n : ℕ) (xs : List A) → take (min n (length xs)) xs ≡ take n xs
take-min zero xs = let e : min 0 (length xs) ≡ 0 = omega arith in rw e
take-min (suc n) [] = let e : min (suc n) 0 ≡ 0 = omega arith in rw e
take-min (suc n) (x ∷ xs) =
    let e : min (suc n) (suc (length xs)) ≡ suc (min n (length xs)) = omega arith in
    rw e (ap (◌∷◌ x) (take-min n xs))

-- What `recv` hands out and leaves in its mailbox, and in the others.
recv-waiting :
    (s : AgentMailbox) (mailbox b : String) (limit : ℕ)
    → ((recv s mailbox limit).1 ≡ take (min limit (length (waiting s mailbox))) (waiting s mailbox))
      × (waiting (recv s mailbox limit).0 b ≡ (
          if mailbox =? b
          then drop (min limit (length (waiting s mailbox))) (waiting s mailbox)
          else waiting s b))
unfolding waiting recv
recv-waiting s mailbox b limit = elim (Option-cases (Dict.get mailbox s.boxes)) [
  | inl e ↦
      rw (e, recv)
        (
          ground (arith, string_keyed.beq_iff mailbox b),
          ground (arith, string_keyed.beq_iff mailbox b),
        )
  | inr (q, e) ↦
      rw (e, recv)
        (
          ground (
            arith,
            string_keyed.beq_iff mailbox b,
            get-insert mailbox b (drop (min limit (length q)) q) s.boxes,
          ),
          ground (
            arith,
            string_keyed.beq_iff mailbox b,
            get-insert mailbox b (drop (min limit (length q)) q) s.boxes,
          ),
        )
]

fifo_post :
    (s : AgentMailbox) (mailbox b : String) (m : MailboxMessage) (later : List MailboxMessage)
    → waiting (post s mailbox m.from m.content m.sent_at) b ++ later
      ≡ waiting s b ++ (if mailbox =? b then m ∷ later else later)
fifo_post s mailbox b m later = elim (Bool-cases (mailbox =? b)) [
  | inl e ↦ rw (waiting-post, e) (append_assoc (waiting s b) (m ∷ []) later)
  | inr e ↦ rw (waiting-post, e)
]

fifo_recv :
    (s : AgentMailbox) (mailbox b : String) (limit : ℕ) (later final rest : List MailboxMessage)
    → later ++ final ≡ waiting (recv s mailbox limit).0 b ++ rest
    → (if mailbox =? b then (recv s mailbox limit).1 ++ later else later) ++ final
      ≡ waiting s b ++ rest
fifo_recv s mailbox b limit later final rest ih = elim (Bool-cases (mailbox =? b)) [
  | inl e ↦
      let same : mailbox ≡ b = (string_keyed.beq_iff mailbox b).0 e in
      let n = min limit (length (waiting s mailbox)) in
      let (got, left) = recv-waiting s mailbox b limit in
      let left' : waiting (recv s mailbox limit).0 b ≡ drop n (waiting s mailbox) = left ∙ rw e in
      rw e (
        append_assoc (recv s mailbox limit).1 later final
        ∙ ap (λ l. (recv s mailbox limit).1 ++ l) (ih ∙ ap (λ l. l ++ rest) left')
        ∙ ap (λ l. l ++ (drop n (waiting s mailbox) ++ rest)) got
        ∙ sym (append_assoc (take n (waiting s mailbox)) (drop n (waiting s mailbox)) rest)
        ∙ ap (λ l. l ++ rest) (take-append-drop n (waiting s mailbox) ∙ ap (waiting s) same))
  | inr e ↦ rw e (ih ∙ ap (λ l. l ++ rest) ((recv-waiting s mailbox b limit).1 ∙ rw e))
]

fifo_from :
    (b : String) (cs : List Call) (s : AgentMailbox)
    → (received b s cs).1 ++ waiting (received b s cs).0 b ≡ waiting s b ++ posted b cs
unfolding received posted step
fifo_from b [] s = sym (append-nil (waiting s b))
fifo_from b (post_to mailbox m ∷ cs) s =
    fifo_from b cs (post s mailbox m.from m.content m.sent_at)
    ∙ fifo_post s mailbox b m (posted b cs)
fifo_from b (recv_from mailbox limit ∷ cs) s =
    let s' = (recv s mailbox limit).0 in
    fifo_recv s mailbox b limit (received b s' cs).1 (waiting (received b s' cs).0 b) (posted b cs)
      (fifo_from b cs s')

-- Over any row of posts and receipts on new mailboxes, what was received from a mailbox, followed by
-- what still waits there, is what was posted to it, in the order of the posts: no message is lost,
-- doubled, reordered or handed to another mailbox.
pub fifo :
    (b : String) (cs : List Call)
    → (received b new cs).1 ++ waiting (received b new cs).0 b ≡ posted b cs
unfolding new waiting
fifo b cs = fifo_from b cs new

-- `recv` hands out the first `limit` messages, which are those that `peek` shows, oldest first, and
-- lowers the count of its mailbox by as many (to 0 if there are fewer); another mailbox keeps its
-- messages.
pub recv_lem :
    (s : AgentMailbox) (mailbox other : String) (limit : ℕ)
    → mailbox ≢ other
    → ((recv s mailbox limit).1 ≡ peek s mailbox limit)
      × ((recv s mailbox limit).1 ≡ take limit (waiting s mailbox))
      × (count (recv s mailbox limit).0 mailbox ≡ count s mailbox - limit)
      × (waiting (recv s mailbox limit).0 other ≡ waiting s other)
unfolding peek count waiting recv
recv_lem s mailbox other limit ne = elim (Option-cases (Dict.get mailbox s.boxes)) [
  | inl e ↦ (
    ground arith,
    ground (arith, take-nil {A = MailboxMessage} limit),
    ground arith,
    ground arith,
  )
  | inr (q, e) ↦
      let n = min limit (length q) in
      rw (e, recv, peek, count, waiting)
        (
          take-min limit q,
          take-min limit q,
          ground (
            arith,
            get-insert mailbox mailbox (drop n q) s.boxes,
            =?_refl mailbox,
            length-drop n q,
          ),
          ground (
            arith,
            get-insert mailbox other (drop n q) s.boxes,
            string_keyed.beq_iff mailbox other,
          ),
        )
]
