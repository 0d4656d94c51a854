-- ===== src/Bus.antt =====
-- The message bus (src/bus.rs): two bounded channels, which are arguments. A call that waits (a
-- publication to a full channel, a consumption of an empty one) is `none`; a channel of the bus is never
-- closed while the bus lives.
mod Tests
use openpaw.Prelude.{ℕ, Bool, Option, none, some, List, [], Text}

-- src/streaming.rs; `Final` is `final_stage`.
pub data OutboundStage : Type 0 where
  chunk final_stage : OutboundStage

pub record InboundMessage : Type 0 where
  pub channel : Text
  pub sender_id : Text
  pub chat_id : Text
  pub content : Text
  pub session_key : Text
  pub media : List Text
  pub metadata_json : Option Text

-- The identifier of the message that is answered is an i64, its sign and its magnitude.
pub record OutboundMessage : Type 0 where
  pub channel : Text
  pub account_id : Option Text
  pub chat_id : Text
  pub content : Text
  pub media : List Text
  pub stage : OutboundStage
  pub reply_to_message_id : Option (Bool × ℕ)

unfoldable pub make_inbound_full :
    Text → Text → Text → Text → Text → List Text → Option Text → InboundMessage
make_inbound_full channel sender_id chat_id content session_key media_src metadata_json = record {
  channel = channel;
  sender_id = sender_id;
  chat_id = chat_id;
  content = content;
  session_key = session_key;
  media = media_src;
  metadata_json = metadata_json;
}

unfoldable pub make_inbound : Text → Text → Text → Text → Text → InboundMessage
make_inbound channel sender_id chat_id content session_key = record {
  channel = channel;
  sender_id = sender_id;
  chat_id = chat_id;
  content = content;
  session_key = session_key;
  media = [];
  metadata_json = none;
}

unfoldable pub make_outbound_with_stage_reply :
    Text → Text → Text → OutboundStage → Option (Bool × ℕ) → OutboundMessage
make_outbound_with_stage_reply channel chat_id content stage reply = record {
  channel = channel;
  account_id = none;
  chat_id = chat_id;
  content = content;
  media = [];
  stage = stage;
  reply_to_message_id = reply;
}

unfoldable pub make_outbound_with_stage : Text → Text → Text → OutboundStage → OutboundMessage
unfolding make_outbound_with_stage_reply
make_outbound_with_stage channel chat_id content stage =
    make_outbound_with_stage_reply channel chat_id content stage none

unfoldable pub make_outbound : Text → Text → Text → OutboundMessage
unfolding make_outbound_with_stage
make_outbound channel chat_id content = make_outbound_with_stage channel chat_id content final_stage

unfoldable pub make_outbound_with_reply : Text → Text → Text → Option (Bool × ℕ) → OutboundMessage
unfolding make_outbound_with_stage_reply
make_outbound_with_reply channel chat_id content reply =
    make_outbound_with_stage_reply channel chat_id content final_stage reply

unfoldable pub make_outbound_chunk : Text → Text → Text → OutboundMessage
unfolding make_outbound_with_stage
make_outbound_chunk channel chat_id content = make_outbound_with_stage channel chat_id content chunk

unfoldable pub make_outbound_with_account_stage :
    Text → Text → Text → Text → OutboundStage → OutboundMessage
make_outbound_with_account_stage channel account_id chat_id content stage = record {
  channel = channel;
  account_id = some account_id;
  chat_id = chat_id;
  content = content;
  media = [];
  stage = stage;
  reply_to_message_id = none;
}

unfoldable pub make_outbound_with_account : Text → Text → Text → Text → OutboundMessage
unfolding make_outbound_with_account_stage
make_outbound_with_account channel account_id chat_id content =
    make_outbound_with_account_stage channel account_id chat_id content final_stage

unfoldable pub make_outbound_chunk_with_account : Text → Text → Text → Text → OutboundMessage
unfolding make_outbound_with_account_stage
make_outbound_chunk_with_account channel account_id chat_id content =
    make_outbound_with_account_stage channel account_id chat_id content chunk

unfoldable pub make_outbound_with_account_reply :
    Text → Text → Text → Text → Option (Bool × ℕ) → OutboundMessage
make_outbound_with_account_reply channel account_id chat_id content reply = record {
  channel = channel;
  account_id = some account_id;
  chat_id = chat_id;
  content = content;
  media = [];
  stage = final_stage;
  reply_to_message_id = reply;
}

unfoldable pub make_outbound_with_media : Text → Text → Text → List Text → OutboundMessage
make_outbound_with_media channel chat_id content media_src = record {
  channel = channel;
  account_id = none;
  chat_id = chat_id;
  content = content;
  media = media_src;
  stage = final_stage;
  reply_to_message_id = none;
}

abbrev pub queue_capacity : ℕ
queue_capacity = 100

-- A bounded channel of `crossbeam_channel` with messages `M`, whose states are `Q`: made with a
-- capacity, sending and receiving (`none` while the call would wait), and the number of messages that
-- wait. It is code outside the program, so it is an argument.
pub record Channel (M Q : Type 0) : Type 0 where
  pub bounded : ℕ → Q
  pub send : M → Q → Option Q
  pub recv : Q → Option (M × Q)
  pub len : Q → ℕ

pub record Bus (I O : Type 0) : Type 0 where
  pub inbound : I
  pub outbound : O

module _ {I O : Type 0} (inbox : Channel InboundMessage I)
    (outbox : Channel OutboundMessage O) where
  unfoldable pub new : Bus I O
  new = record { inbound = inbox.bounded queue_capacity; outbound = outbox.bounded queue_capacity }

module _ {I O : Type 0} (inbox : Channel InboundMessage I) where
  unfoldable pub publish_inbound : InboundMessage → Bus I O → Option (Bus I O)
  publish_inbound msg bus = elim (inbox.send msg bus.inbound) [
    | none ↦ none
    | some queue ↦ some (record bus { inbound = queue })
  ]

  unfoldable pub consume_inbound : Bus I O → Option (InboundMessage × Bus I O)
  consume_inbound bus = elim (inbox.recv bus.inbound) [
    | none ↦ none
    | some (msg, queue) ↦ some (msg, record bus { inbound = queue })
  ]

  -- No message comes before the timeout if the queue is empty.
  unfoldable pub consume_inbound_timeout : Bus I O → Option InboundMessage × Bus I O
  consume_inbound_timeout bus = elim (inbox.recv bus.inbound) [
    | none ↦ (none, bus)
    | some (msg, queue) ↦ (some msg, record bus { inbound = queue })
  ]

  unfoldable pub inbound_depth : Bus I O → ℕ
  inbound_depth bus = inbox.len bus.inbound

module _ {I O : Type 0} (outbox : Channel OutboundMessage O) where
  unfoldable pub publish_outbound : OutboundMessage → Bus I O → Option (Bus I O)
  publish_outbound msg bus = elim (outbox.send msg bus.outbound) [
    | none ↦ none
    | some queue ↦ some (record bus { outbound = queue })
  ]

  unfoldable pub consume_outbound : Bus I O → Option (OutboundMessage × Bus I O)
  consume_outbound bus = elim (outbox.recv bus.outbound) [
    | none ↦ none
    | some (msg, queue) ↦ some (msg, record bus { outbound = queue })
  ]

  unfoldable pub outbound_depth : Bus I O → ℕ
  outbound_depth bus = outbox.len bus.outbound
