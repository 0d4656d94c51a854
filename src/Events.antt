-- ===== src/Events.antt =====
-- The watchers of events (src/events.rs). The registry keeps its table, the next id and what was
-- saved last; the file that it reads on start is an argument. A watcher's shell command is kept as
-- the text that the shell is given (on Unix).
pub mod Patterns
pub mod Registry
mod Tests
use openpaw.Prelude.{
  ℕ, ◌+◌, ◌%◌, ◌^◌, max, Bool, true, false, not, ◌&&◌, ◌||◌, Option, none, some, List, [], ◌∷◌,
  ◌++◌, Text, codes, text_eq, nat_keyed, if◌then◌else◌, ltb, is_some,
}
use openpaw.Scan.{starts_with, ends_with, show}
use openpaw.Dict as Dict
use openpaw.Bus.{
  Bus, Channel, InboundMessage, OutboundMessage, make_inbound, make_outbound, publish_inbound,
  publish_outbound,
}

pub data WatcherAction : Type 0 where
  agent_task : (prompt : Text) (agent_id : Option Text) → WatcherAction
  shell_command : (command : Text) → WatcherAction

pub record EventWatcher : Type 0 where
  pub id : ℕ  -- u64
  pub event_pattern : Text
  pub action : WatcherAction
  pub label : Text
  pub origin_channel : Text
  pub origin_chat_id : Text
  pub created_at : ℕ
  pub fire_count : ℕ  -- u64

-- The table of watchers, the next id, and the table in the file.
pub record EventRegistry : Type 0 where
  pub watchers : List (ℕ × EventWatcher)
  pub next_id : ℕ  -- u64
  pub saved : Option (List (ℕ × EventWatcher))

abbrev pub max_key : List (ℕ × EventWatcher) → ℕ
max_key [] = 0
max_key ((id, w) ∷ ws) = max id (max_key ws)

-- `EventRegistry::new`: the file is `none` if it cannot be read or parsed.
unfoldable pub load : Option (List (ℕ × EventWatcher)) → EventRegistry
load none = record { watchers = []; next_id = 1; saved = none }
load (some watchers) = record {
  watchers = watchers;
  next_id = (max_key watchers + 1) % 2 ^ 64;
  saved = some watchers;
}

abbrev pub save : EventRegistry → EventRegistry
save r = record r { saved = some r.watchers }

unfoldable pub watch :
    Text → WatcherAction → Text → Text → Text → ℕ → EventRegistry → EventRegistry × ℕ
watch event_pattern action label origin_channel origin_chat_id now r =
    let id = r.next_id in
    let watcher : EventWatcher = record {
      id = id;
      event_pattern = event_pattern;
      action = action;
      label = label;
      origin_channel = origin_channel;
      origin_chat_id = origin_chat_id;
      created_at = now;
      fire_count = 0;
    } in
    (
      save (record r { watchers = Dict.insert id watcher r.watchers; next_id = (id + 1) % 2 ^ 64 }),
      id,
    )

unfoldable pub unwatch : ℕ → EventRegistry → EventRegistry × Bool
unwatch watcher_id r =
    let removed = Dict.contains_key watcher_id r.watchers in
    let r' = record r { watchers = Dict.remove watcher_id r.watchers } in
    (if removed then save r' else r', removed)

abbrev pub drop_last : Text → Text
drop_last [] = []
drop_last (c ∷ []) = []
drop_last (c ∷ d ∷ s) = c ∷ drop_last (d ∷ s)

-- `strip_suffix(".*")`, then "{prefix}."; and a pattern that ends in `*`.
unfoldable pub pattern_matches : Text → Text → Bool
pattern_matches pattern event =
    if text_eq pattern (codes "*")
    then true
    else if ends_with (codes ".*") pattern
    then starts_with (drop_last (drop_last pattern) ++ codes ".") event
    else if ends_with (codes "*") pattern
    then starts_with (drop_last pattern) event
    else text_eq pattern event

-- The command line of a shell command.
abbrev pub full_cmd : Text → Text → Text → Text
full_cmd event_name payload command =
    codes "EVENT_NAME='"
    ++ event_name
    ++ codes "' EVENT_PAYLOAD='"
    ++ payload
    ++ codes "' "
    ++ command

-- What an event does to the bus, and the commands that it starts.
pub record Effects (I O : Type 0) : Type 0 where
  pub bus : Bus I O
  pub commands : List Text

-- The event and where it comes from.
pub record Emitted : Type 0 where
  pub event_name : Text
  pub payload : Text
  pub emitter_channel : Text
  pub emitter_chat_id : Text

abbrev pub counted : EventWatcher → EventWatcher
counted w = record w { fire_count = (w.fire_count + 1) % 2 ^ 64 }

abbrev pub ack_of : Emitted → EventWatcher → Text
ack_of ev w =
    codes "⚡ Event '"
    ++ ev.event_name
    ++ codes "' triggered watcher '"
    ++ w.label
    ++ codes "' (ID "
    ++ show w.id
    ++ codes ")"

module _ {I O : Type 0} where
  abbrev on_bus : Effects I O → Option (Bus I O) → Option (Effects I O)
  on_bus e none = none
  on_bus e (some bus) = some (record e { bus = bus })

  abbrev pub keep_watcher :
      ℕ × EventWatcher
      → ℕ
      → Option (List (ℕ × EventWatcher) × Effects I O × ℕ)
      → Option (List (ℕ × EventWatcher) × Effects I O × ℕ)
  keep_watcher entry fired none = none
  keep_watcher entry fired (some (ws, e, triggered)) = some (entry ∷ ws, e, fired + triggered)

  abbrev pub go_on :
      (Effects I O → Option (List (ℕ × EventWatcher) × Effects I O × ℕ))
      → Option (Effects I O)
      → Option (List (ℕ × EventWatcher) × Effects I O × ℕ)
  go_on rest none = none
  go_on rest (some e) = rest e

  abbrev pub emitted :
      EventRegistry
      → Option (List (ℕ × EventWatcher) × Effects I O × ℕ)
      → Option (EventRegistry × Effects I O × ℕ)
  emitted r none = none
  emitted r (some (ws, e, triggered)) =
      let r' = record r { watchers = ws } in
      some (if ltb 0 triggered then save r' else r', e, triggered)

module _ {I O : Type 0} (inbox : Channel InboundMessage I)
    (outbox : Channel OutboundMessage O) where
  abbrev pub act : Emitted → EventWatcher → WatcherAction → Effects I O → Option (Effects I O)
  act ev w (agent_task prompt agent_id) e =
      let full_prompt =
        codes "[Event: "
        ++ ev.event_name
        ++ codes "] "
        ++ prompt
        ++ codes "\n\nEvent payload: "
        ++ ev.payload in
      let session_key = w.origin_channel ++ codes ":" ++ w.origin_chat_id in
      on_bus e (
        publish_inbound inbox
          (make_inbound w.origin_channel (codes "event_system") w.origin_chat_id full_prompt
            session_key)
          e.bus)
  act ev w (shell_command command) e =
      some (record e { commands = e.commands ++ full_cmd ev.event_name ev.payload command ∷ [] })

  -- The notice to the emitter, if the watcher is someone else's.
  abbrev pub notify : Emitted → EventWatcher → Text → Effects I O → Option (Effects I O)
  notify ev w ack e =
      if not (text_eq ev.emitter_channel w.origin_channel)
        || not (text_eq ev.emitter_chat_id w.origin_chat_id)
      then on_bus e
          (publish_outbound outbox (make_outbound ev.emitter_channel ev.emitter_chat_id ack) e.bus)
      else some e

  abbrev pub then_notify :
      Emitted → EventWatcher → Text → Option (Effects I O) → Option (Effects I O)
  then_notify ev w ack none = none
  then_notify ev w ack (some e) = notify ev w ack e

  -- One watcher that matches; a full queue makes it wait, which is `none`.
  abbrev pub fire : Emitted → EventWatcher → Text → Effects I O → Option (Effects I O)
  fire ev w ack e = then_notify ev w ack (act ev w w.action e)

  -- The loop of `emit`. `ack` is the text of the notice about a watcher.
  unfoldable pub fire_all :
      Emitted
      → (EventWatcher → Text)
      → List (ℕ × EventWatcher)
      → Effects I O
      → Option (List (ℕ × EventWatcher) × Effects I O × ℕ)
  unfolding pattern_matches
  fire_all ev ack [] e = some ([], e, 0)
  fire_all ev ack ((id, w) ∷ ws) e =
      let rest = fire_all ev ack ws in
      if pattern_matches w.event_pattern ev.event_name
      then keep_watcher (id, counted w) 1 (go_on rest (fire ev (counted w) (ack (counted w)) e))
      else keep_watcher (id, w) 0 (rest e)

  unfoldable pub emit :
      Emitted → EventRegistry → Effects I O → Option (EventRegistry × Effects I O × ℕ)
  unfolding fire_all
  emit ev r e = emitted r (fire_all ev (ack_of ev) r.watchers e)
