-- ===== src/Routing/Tests.antt =====
-- Runs of the agent routing (src/agent_routing.rs), and its theorems at inputs.
use openpaw.Prelude.{
  ℕ, ◌≡◌, refl, ◌<◌, ◌⊎◌, inl, Bool, false, ◌&&◌, ◌||◌, none, some, List, [], ◌∷◌, codes, arith,
  leb, text_keyed,
}
use openpaw.Routing.{
  PeerRef, BindingMatch, AgentBinding, MatchedBy, RouteInput, SessionConfig, direct,
  per_channel_peer, chat_keyed,
}
use openpaw.Routing.Keys.{
  normalize_id, build_session_key, build_thread_session_key, resolve_thread_parent_session_key,
  normalize_chars, to_ascii_lowercase, trim_start, trim_end, find_default_agent, starts_with,
  or_default,
}
use openpaw.Routing.Resolve.{
  resolve_route_with_session, resolve_route, first_match, match_bindings, scoped_bindings,
  peer_tier, peer_test,
}
use openpaw.Routing.Normal.{IsTable}
use openpaw.Routing.Isolation.{build_session_key-injective}
use openpaw.Routing.Priority.{IsFrom, resolve_route-Admits}
use openpaw.Routing.Least.{rank, anyone, pick, resolve_route-least}
use openpaw.Routing.Dead.{IsDead}

-- The ASCII part of the table.
abbrev ascii_alphanumeric : ℕ → Bool
ascii_alphanumeric c =
    leb b'0' c && leb c b'9' || leb b'A' c && leb c b'Z' || leb b'a' c && leb c b'z'

ascii-IsTable : IsTable ascii_alphanumeric
ascii-IsTable = record { dash = refl; letters = λ c lo hi. ground arith }

program : Unit {0}
unfolding normalize_id normalize_chars to_ascii_lowercase trim_start trim_end or_default
    build_session_key build_thread_session_key resolve_thread_parent_session_key starts_with
program = tt

spaced : normalize_id ascii_alphanumeric (codes "  My Agent! ") ≡ codes "my-agent"
unfolding program
spaced = refl

dashes : normalize_id ascii_alphanumeric (codes "---") ≡ codes "default"
unfolding program
dashes = refl

abbrev anna : PeerRef
anna = record { kind = direct; id = codes "anna" }

session_key :
    build_session_key ascii_alphanumeric (codes "Helper") (codes "telegram") (some anna)
    ≡ codes "agent:helper:telegram:direct:anna"
unfolding program
session_key = refl

nested_thread :
    resolve_thread_parent_session_key (codes "a:thread:1:thread:2") ≡ some (codes "a:thread:1")
unfolding program
nested_thread = refl

build_session_key-injective_example :
    (normalize_id ascii_alphanumeric (codes "Helper")
      ≡ normalize_id ascii_alphanumeric (codes "HELPER"))
    × (codes "telegram" ≡ codes "telegram")
    × (some anna ≡ some anna)
unfolding program
build_session_key-injective_example =
    build_session_key-injective ascii_alphanumeric (codes "Helper") (codes "HELPER")
      (codes "telegram") (codes "telegram") (some anna) (some anna) ascii-IsTable refl (omega arith)
      (omega arith) refl

abbrev anything : BindingMatch
anything = record {
  channel = none;
  account_id = none;
  peer = none;
  guild_id = none;
  team_id = none;
  roles = [];
}

abbrev to_support : AgentBinding
to_support = record {
  agent_id = codes "support";
  constraint = record anything { channel = some (codes "telegram") };
}

abbrev to_friend : AgentBinding
to_friend = record { agent_id = codes "friend"; constraint = record anything { peer = some anna } }

abbrev to_both : AgentBinding
to_both = record {
  agent_id = codes "both";
  constraint = record anything { guild_id = some (codes "g"); team_id = some (codes "t") };
}

abbrev input : RouteInput
input = record {
  channel = codes "telegram";
  account_id = codes "bot";
  peer = some anna;
  parent_peer = none;
  guild_id = some (codes "g");
  team_id = some (codes "t");
  member_role_ids = [];
}

abbrev config : SessionConfig
config = record {
  dm_scope = per_channel_peer;
  idle_minutes = 60;
  identity_links = [];
  typing_interval_secs = 5;
}

abbrev bindings : List AgentBinding
bindings = to_support ∷ to_both ∷ to_friend ∷ []

by_peer :
    let route = resolve_route ascii_alphanumeric input bindings [] in
    (route.agent_id ≡ codes "friend") × (route.matched_by ≡ MatchedBy.peer)
unfolding resolve_route match_bindings scoped_bindings peer_tier peer_test first_match
by_peer = (refl, refl)

resolve_route-Admits_example :
    let route = resolve_route_with_session ascii_alphanumeric input bindings [] config in
    IsFrom input bindings route.agent_id
    ⊎ ((route.matched_by ≡ MatchedBy.by_default) × (route.agent_id ≡ find_default_agent []))
resolve_route-Admits_example = resolve_route-Admits ascii_alphanumeric input bindings [] config

resolve_route-least_example :
    let route = resolve_route_with_session ascii_alphanumeric input bindings [] config in
    ((by : MatchedBy) → rank by < rank route.matched_by → anyone by input bindings ≡ false)
    × ((route.matched_by ≡ MatchedBy.by_default)
        ⊎ (pick route.matched_by input bindings ≡ some (route.agent_id, route.matched_by)))
resolve_route-least_example = resolve_route-least ascii_alphanumeric input bindings [] config

both-IsDead : IsDead to_both
both-IsDead = record { no_peer = refl; no_roles = refl; useless = inl (refl, refl) }
