-- ===== src/Routing/Resolve.antt =====
-- The seven tiers of `resolve_route_with_session` (src/agent_routing.rs).
-- `matched_agent` and `matched_by` are one value: `none` while no agent is matched.
use openpaw.Prelude.{
  ℕ, Bool, false, not, ◌&&◌, Option, none, some, List, [], ◌∷◌, Text, text_keyed, ◌=?◌, retain,
  is_some, if◌then◌else◌,
}
use openpaw.Routing.{
  PeerRef, AgentBinding, MatchedBy, RouteInput, ResolvedRoute, SessionConfig, NamedAgentConfig,
  per_channel_peer,
}
use openpaw.Routing.Matching.{
  is_empty, peer_matches, binding_matches_scope, is_account_only, is_channel_only,
  all_constraints_match,
}
use openpaw.Routing.Keys.{build_session_key_with_scope, build_main_session_key, find_default_agent}

abbrev pub Matched : Type 0
Matched = Option (Text × MatchedBy)

-- A loop over the bindings that takes the first that passes the test.
unfoldable pub first_match : (AgentBinding → Bool) → MatchedBy → List AgentBinding → Matched
first_match test by [] = none
first_match test by (b ∷ bs) = if test b then some (b.agent_id, by) else first_match test by bs

-- 1 and 2: the peer, or the parent peer.
unfoldable pub peer_test : RouteInput → PeerRef → AgentBinding → Bool
unfolding peer_matches all_constraints_match
peer_test input p b =
    is_some b.constraint.peer
    && peer_matches b.constraint.peer (some p)
    && all_constraints_match b input (some p)

unfoldable pub peer_tier : RouteInput → Option PeerRef → MatchedBy → List AgentBinding → Matched
peer_tier input none by scoped = none
peer_tier input (some p) by scoped = first_match (peer_test input p) by scoped

-- 3: roles, in a guild.
unfoldable pub roles_test : RouteInput → AgentBinding → Bool
unfolding all_constraints_match
roles_test input b = not (is_empty b.constraint.roles) && all_constraints_match b input input.peer

unfoldable pub roles_tier : RouteInput → List AgentBinding → Matched
roles_tier input scoped =
    if is_some input.guild_id && not (is_empty input.member_role_ids)
    then first_match (roles_test input) MatchedBy.guild_roles scoped
    else none

abbrev pub is_id : Option Text → Text → Bool
is_id none v = false
is_id (some c) v = c =? v

-- 4: the guild.
unfoldable pub guild_test : Text → AgentBinding → Bool
guild_test guild b =
    is_id b.constraint.guild_id guild
    && not (is_some b.constraint.peer)
    && not (is_some b.constraint.team_id)
    && is_empty b.constraint.roles

unfoldable pub guild_tier : Option Text → List AgentBinding → Matched
guild_tier none scoped = none
guild_tier (some guild) scoped = first_match (guild_test guild) MatchedBy.guild scoped

-- 5: the team.
unfoldable pub team_test : Text → AgentBinding → Bool
team_test team b =
    is_id b.constraint.team_id team
    && not (is_some b.constraint.peer)
    && not (is_some b.constraint.guild_id)
    && is_empty b.constraint.roles

unfoldable pub team_tier : Option Text → List AgentBinding → Matched
team_tier none scoped = none
team_tier (some team) scoped = first_match (team_test team) MatchedBy.team scoped

-- 6 and 7: the account, and the channel alone.
unfoldable pub account_test : AgentBinding → Bool
unfolding is_account_only
account_test b = is_account_only b && is_some b.constraint.account_id

unfoldable pub channel_test : AgentBinding → Bool
unfolding is_channel_only
channel_test b = is_channel_only b && is_some b.constraint.channel

-- A tier is tried if no agent is matched yet.
abbrev pub or_try : Matched → Matched → Matched
or_try (some m) later = some m
or_try none later = later

unfoldable pub scoped_bindings : RouteInput → List AgentBinding → List AgentBinding
unfolding binding_matches_scope
scoped_bindings input bindings = retain (λ b. binding_matches_scope b input) bindings

-- The match after all tiers.
unfoldable pub match_bindings : RouteInput → List AgentBinding → Matched
match_bindings input bindings =
    let scoped = scoped_bindings input bindings in
    or_try (peer_tier input input.peer MatchedBy.peer scoped) (
      or_try (peer_tier input input.parent_peer MatchedBy.parent_peer scoped) (
        or_try (roles_tier input scoped) (
          or_try (guild_tier input.guild_id scoped) (
            or_try (team_tier input.team_id scoped) (
              or_try (first_match account_test MatchedBy.account scoped)
                (first_match channel_test MatchedBy.channel_only scoped))))))

abbrev pub agent_or_default : Matched → List NamedAgentConfig → Text
agent_or_default none agents = find_default_agent agents
agent_or_default (some m) agents = m.0

abbrev pub by_or_default : Matched → MatchedBy
by_or_default none = MatchedBy.by_default
by_or_default (some m) = m.1

module _ (is_alphanumeric : ℕ → Bool) where
  unfoldable pub resolve_route_with_session :
      RouteInput → List AgentBinding → List NamedAgentConfig → SessionConfig → ResolvedRoute
  resolve_route_with_session input bindings agents session_config =
      let matched = match_bindings input bindings in
      let final_agent_id = agent_or_default matched agents in
      record {
        agent_id = final_agent_id;
        channel = input.channel;
        account_id = input.account_id;
        session_key =
            build_session_key_with_scope is_alphanumeric final_agent_id input.channel input.peer
              session_config.dm_scope (some input.account_id) session_config.identity_links;
        main_session_key = build_main_session_key is_alphanumeric final_agent_id;
        matched_by = by_or_default matched;
      }

  unfoldable pub resolve_route :
      RouteInput → List AgentBinding → List NamedAgentConfig → ResolvedRoute
  unfolding resolve_route_with_session
  resolve_route input bindings agents = resolve_route_with_session input bindings agents (record {
    dm_scope = per_channel_peer;
    idle_minutes = 60;
    identity_links = [];
    typing_interval_secs = 5;
  })
