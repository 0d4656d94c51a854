-- ===== src/Events/Tests.antt =====
-- Runs of the watchers (src/events.rs), and their theorems at inputs.
use openpaw.Prelude.{
  ◌≡◌, refl, true, false, Option, none, some, List, [], ◌∷◌, ◌++◌, ℕ, length, ltb, if◌then◌else◌,
  codes, nat_keyed,
}
use openpaw.Scan.{show}
use openpaw.Bus.{
  Channel, InboundMessage, OutboundMessage, new, make_inbound, make_outbound,
  make_outbound_with_stage, make_outbound_with_stage_reply, publish_inbound, publish_outbound,
}
use openpaw.Events.{
  agent_task, EventRegistry, Emitted, Effects, load, watch, unwatch, pattern_matches, full_cmd,
  fire_all, emit,
}

program : Unit {0}
unfolding show new make_inbound make_outbound make_outbound_with_stage
    make_outbound_with_stage_reply publish_inbound publish_outbound load watch unwatch
    pattern_matches fire_all emit
program = tt

patterns :
    (pattern_matches (codes "file.*") (codes "file.changed") ≡ true)
    × (pattern_matches (codes "file.*") (codes "network.up") ≡ false)
    × (pattern_matches (codes "*") (codes "anything") ≡ true)
    × (pattern_matches (codes "exact") (codes "exactplus") ≡ false)
    × (pattern_matches (codes "pre*") (codes "prefix.event") ≡ true)
unfolding program
patterns = (refl, refl, refl, refl, refl)

-- A payload with a quote ends the string of the shell.
open_quote :
    full_cmd (codes "e") (codes "'; reboot; '") (codes "true")
    ≡ codes "EVENT_NAME='e' EVENT_PAYLOAD=''; reboot; '' true"
open_quote = refl

abbrev start : EventRegistry
start = record { watchers = []; next_id = 1; saved = none }

abbrev one : EventRegistry
unfolding watch
one =
    (watch (codes "file.*") (agent_task (codes "look") none) (codes "files") (codes "cli")
      (codes "1") 7 start).0

abbrev changed : Emitted
changed = record {
  event_name = codes "file.changed";
  payload = codes "a.txt";
  emitter_channel = codes "cli";
  emitter_chat_id = codes "2";
}

-- A channel as a list of the messages that wait, at most `capacity` of them.
abbrev channel : {M : Type 0} → Channel M (ℕ × List M)
channel = record {
  bounded = λ capacity. (capacity, []);
  send = λ msg q. if ltb (length q.1) q.0 then some (q.0, q.1 ++ msg ∷ []) else none;
  recv = λ q. elim q.1 [ [] ↦ none | msg ∷ rest ↦ some (msg, (q.0, rest)) ];
  len = λ q. length q.1;
}

abbrev quiet : Effects (ℕ × List InboundMessage) (ℕ × List OutboundMessage)
quiet = record { bus = new channel channel; commands = [] }

-- An id is used again after a restart: the last watcher's, once it was removed.
id_again : let (r, gone) = unwatch 1 one in (gone ≡ true) × ((load r.saved).next_id ≡ 1)
unfolding program
id_again = (refl, refl)

abbrev emission :
    Option (EventRegistry × Effects (ℕ × List InboundMessage) (ℕ × List OutboundMessage) × ℕ)
emission = emit channel channel changed one quiet

abbrev registry_of :
    Option (EventRegistry × Effects (ℕ × List InboundMessage) (ℕ × List OutboundMessage) × ℕ)
    → EventRegistry
registry_of none = one
registry_of (some (r, e, n)) = r

abbrev effects_of :
    Option (EventRegistry × Effects (ℕ × List InboundMessage) (ℕ × List OutboundMessage) × ℕ)
    → Effects (ℕ × List InboundMessage) (ℕ × List OutboundMessage)
effects_of none = quiet
effects_of (some (r, e, n)) = e
