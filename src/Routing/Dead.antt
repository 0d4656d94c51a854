-- ===== src/Routing/Dead.antt =====
-- Bindings that no input can select (src/agent_routing.rs).
use openpaw.Prelude.{
  ℕ, ◌≡◌, refl, ◌⊎◌, Bool, true, false, Option, none, some, List, [], ◌∷◌, ◌++◌, Text, arith,
  is_some, retain,
}
use mathlib.Core.Path.{ap₂}
use openpaw.Routing.{PeerRef, AgentBinding, MatchedBy, RouteInput, SessionConfig, NamedAgentConfig}
use openpaw.Routing.Matching.{binding_matches_scope}
use openpaw.Routing.Resolve.{
  first_match, peer_test, peer_tier, roles_test, roles_tier, guild_test, guild_tier, team_test,
  team_tier, account_test, channel_test, or_try, scoped_bindings, match_bindings,
  resolve_route_with_session,
}

-- No peer and no roles, and either both a guild and a team, or nothing at all.
pub record IsDead (b : AgentBinding) : Type 0 where
  pub no_peer : b.constraint.peer ≡ none
  pub no_roles : b.constraint.roles ≡ []
  pub useless :
      ((is_some b.constraint.guild_id ≡ true) × (is_some b.constraint.team_id ≡ true))
      ⊎ ((b.constraint.channel ≡ none)
          × (b.constraint.account_id ≡ none)
          × (b.constraint.guild_id ≡ none)
          × (b.constraint.team_id ≡ none))

skip :
    (p test : AgentBinding → Bool) (by : MatchedBy) (before after : List AgentBinding)
    (b : AgentBinding)
    → test b ≡ false
    → first_match test by (retain p (before ++ b ∷ after))
      ≡ first_match test by (retain p (before ++ after))
unfolding first_match
skip p test by [] after b h = ground arith
skip p test by (c ∷ before) after b h = ground (arith, skip p test by before after b h)

module _ (input : RouteInput) (before after : List AgentBinding) (b : AgentBinding)
    (dead : IsDead b) where
  skip_peer :
      (p : Option PeerRef) (by : MatchedBy)
      → peer_tier input p by (scoped_bindings input (before ++ b ∷ after))
        ≡ peer_tier input p by (scoped_bindings input (before ++ after))
  unfolding peer_tier scoped_bindings
  skip_peer none by = refl
  skip_peer (some p) by =
      skip (λ c. binding_matches_scope c input) (peer_test input p) by before after b
        (unfold peer_test in ground arith)

  skip_roles :
      roles_tier input (scoped_bindings input (before ++ b ∷ after))
      ≡ roles_tier input (scoped_bindings input (before ++ after))
  unfolding roles_tier scoped_bindings
  skip_roles = rw (
      skip (λ c. binding_matches_scope c input) (roles_test input) MatchedBy.guild_roles before
        after b (unfold roles_test in ground arith))

  skip_guild :
      (g : Option Text)
      → guild_tier g (scoped_bindings input (before ++ b ∷ after))
        ≡ guild_tier g (scoped_bindings input (before ++ after))
  unfolding guild_tier scoped_bindings
  skip_guild none = refl
  skip_guild (some g) =
      skip (λ c. binding_matches_scope c input) (guild_test g) MatchedBy.guild before after b
        (unfold guild_test in ground arith)

  skip_team :
      (t : Option Text)
      → team_tier t (scoped_bindings input (before ++ b ∷ after))
        ≡ team_tier t (scoped_bindings input (before ++ after))
  unfolding team_tier scoped_bindings
  skip_team none = refl
  skip_team (some t) =
      skip (λ c. binding_matches_scope c input) (team_test t) MatchedBy.team before after b
        (unfold team_test in ground arith)

  skip_rest :
      (test : AgentBinding → Bool) (by : MatchedBy)
      → test b ≡ false
      → first_match test by (scoped_bindings input (before ++ b ∷ after))
        ≡ first_match test by (scoped_bindings input (before ++ after))
  unfolding scoped_bindings
  skip_rest test by h = skip (λ c. binding_matches_scope c input) test by before after b h

  skip_dead : match_bindings input (before ++ b ∷ after) ≡ match_bindings input (before ++ after)
  unfolding match_bindings
  skip_dead = ap₂ or_try (skip_peer input.peer MatchedBy.peer) (
      ap₂ or_try (skip_peer input.parent_peer MatchedBy.parent_peer) (
        ap₂ or_try skip_roles (
          ap₂ or_try (skip_guild input.guild_id) (
            ap₂ or_try (skip_team input.team_id) (
              ap₂ or_try
                (skip_rest account_test MatchedBy.account (unfold account_test in ground arith))
                (skip_rest channel_test MatchedBy.channel_only
                  (unfold channel_test in ground arith)))))))

-- A binding with neither peer nor roles that names both a guild and a team, or that names nothing at
-- all, never takes part: wherever it stands in the configuration, every input gets the route that it
-- gets without it.
pub resolve_route-IsDead :
    (is_alphanumeric : ℕ → Bool) (input : RouteInput) (before after : List AgentBinding)
    (b : AgentBinding) (agents : List NamedAgentConfig) (config : SessionConfig)
    → IsDead b
    → resolve_route_with_session is_alphanumeric input (before ++ b ∷ after) agents config
      ≡ resolve_route_with_session is_alphanumeric input (before ++ after) agents config
unfolding resolve_route_with_session
resolve_route-IsDead is_alphanumeric input before after b agents config dead =
    rw (skip_dead input before after b dead)
