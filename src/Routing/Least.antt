-- ===== src/Routing/Least.antt =====
-- The order of the tiers (src/agent_routing.rs).
use openpaw.Prelude.{
  if◌then◌else◌, ℕ, ◌≡◌, refl, ◌<◌, ◌⊎◌, inl, inr, Bool, true, false, not, ◌&&◌, Option, none, some,
  List, [], ◌∷◌, Text, text_keyed, arith, is_some, any, retain, find,
}
use mathlib.Core.Path.{ap₂}
use openpaw.Routing.{PeerRef, AgentBinding, MatchedBy, RouteInput, SessionConfig, NamedAgentConfig}
use openpaw.Routing.MatchedBy.{
  peer, parent_peer, guild_roles, guild, team, account, channel_only, by_default,
}
use openpaw.Routing.Matching.{is_empty, binding_matches_scope}
use openpaw.Routing.Resolve.{
  Matched, first_match, peer_test, peer_tier, roles_test, roles_tier, guild_test, guild_tier,
  team_test, team_tier, account_test, channel_test, or_try, agent_or_default, by_or_default,
  scoped_bindings, match_bindings, resolve_route_with_session,
}

-- The place of a tier in the order.
abbrev pub rank : MatchedBy → ℕ
rank peer = 1
rank parent_peer = 2
rank guild_roles = 3
rank guild = 4
rank team = 5
rank account = 6
rank channel_only = 7
rank by_default = 8

abbrev when_some {ℓ} : {A : Type ℓ} → Option A → (A → Bool) → Bool
when_some none f = false
when_some (some a) f = f a

-- Whether a binding fits a tier for the input, each tier by itself.
abbrev pub fits : MatchedBy → RouteInput → AgentBinding → Bool
fits peer input b = when_some input.peer (λ p. peer_test input p b)
fits parent_peer input b = when_some input.parent_peer (λ p. peer_test input p b)
fits guild_roles input b =
    (is_some input.guild_id && not (is_empty input.member_role_ids)) && roles_test input b
fits guild input b = when_some input.guild_id (λ g. guild_test g b)
fits team input b = when_some input.team_id (λ t. team_test t b)
fits account input b = account_test b
fits channel_only input b = channel_test b
fits by_default input b = true

-- Whether some binding in the scope of the input fits the tier.
abbrev pub anyone : MatchedBy → RouteInput → List AgentBinding → Bool
anyone by input bindings = any (λ b. binding_matches_scope b input && fits by input b) bindings

abbrev to_match : MatchedBy → Option AgentBinding → Matched
to_match by none = none
to_match by (some b) = some (b.agent_id, by)

-- The match of a tier by itself: the first binding in scope that fits it.
unfoldable pub pick : MatchedBy → RouteInput → List AgentBinding → Matched
pick by input bindings =
    to_match by (find (λ b. binding_matches_scope b input && fits by input b) bindings)

first_match-find :
    (p test : AgentBinding → Bool) (by : MatchedBy) (bs : List AgentBinding)
    → first_match test by (retain p bs) ≡ to_match by (find (λ b. p b && test b) bs)
unfolding first_match
first_match-find p test by [] = refl
first_match-find p test by (b ∷ bs) = ground (arith, first_match-find p test by bs)

find-false : (p : AgentBinding → Bool) (bs : List AgentBinding) → find (λ b. p b && false) bs ≡ none
find-false p [] = refl
find-false p (b ∷ bs) = ground (arith, find-false p bs)

module _ (input : RouteInput) (bindings : List AgentBinding) where
  abbrev in_scope : AgentBinding → Bool
  in_scope b = binding_matches_scope b input

  peer_tier-find :
      (p : Option PeerRef) (by : MatchedBy)
      → peer_tier input p by (scoped_bindings input bindings)
        ≡ to_match by (find (λ b. in_scope b && when_some p (λ q. peer_test input q b)) bindings)
  unfolding peer_tier scoped_bindings
  peer_tier-find none by = rw (find-false in_scope bindings)
  peer_tier-find (some p) by = first_match-find in_scope (peer_test input p) by bindings

  guild_tier-find :
      (g : Option Text)
      → guild_tier g (scoped_bindings input bindings)
        ≡ to_match guild (find (λ b. in_scope b && when_some g (λ q. guild_test q b)) bindings)
  unfolding guild_tier scoped_bindings
  guild_tier-find none = rw (find-false in_scope bindings)
  guild_tier-find (some g) = first_match-find in_scope (guild_test g) guild bindings

  team_tier-find :
      (t : Option Text)
      → team_tier t (scoped_bindings input bindings)
        ≡ to_match team (find (λ b. in_scope b && when_some t (λ q. team_test q b)) bindings)
  unfolding team_tier scoped_bindings
  team_tier-find none = rw (find-false in_scope bindings)
  team_tier-find (some t) = first_match-find in_scope (team_test t) team bindings

  guarded-find :
      (guard : Bool)
      → (if guard
          then first_match (roles_test input) guild_roles (scoped_bindings input bindings)
          else none)
        ≡ to_match guild_roles (find (λ b. in_scope b && (guard && roles_test input b)) bindings)
  unfolding scoped_bindings
  guarded-find true = first_match-find in_scope (roles_test input) guild_roles bindings
  guarded-find false = rw (find-false in_scope bindings)

  -- The seven tiers in turn.
  picks : Matched
  picks = or_try (pick peer input bindings) (
      or_try (pick parent_peer input bindings) (
        or_try (pick guild_roles input bindings) (
          or_try (pick guild input bindings) (
            or_try (pick team input bindings)
              (or_try (pick account input bindings) (pick channel_only input bindings))))))

  match_bindings-picks : match_bindings input bindings ≡ picks
  unfolding match_bindings pick picks roles_tier
  match_bindings-picks =
      let account_eq : first_match account_test account (scoped_bindings input bindings)
          ≡ to_match account (find (λ b. in_scope b && account_test b) bindings) =
        unfold scoped_bindings in first_match-find in_scope account_test account bindings in
      let channel_eq : first_match channel_test channel_only (scoped_bindings input bindings)
          ≡ to_match channel_only (find (λ b. in_scope b && channel_test b) bindings) =
        unfold scoped_bindings in first_match-find in_scope channel_test channel_only bindings in
      ap₂ or_try (peer_tier-find input.peer peer) (
        ap₂ or_try (peer_tier-find input.parent_peer parent_peer) (
          ap₂ or_try (guarded-find (is_some input.guild_id && not (is_empty input.member_role_ids)))
            (ap₂ or_try (guild_tier-find input.guild_id)
              (ap₂ or_try (team_tier-find input.team_id) (ap₂ or_try account_eq channel_eq)))))

find-any : (p : AgentBinding → Bool) (bs : List AgentBinding) → find p bs ≡ none → any p bs ≡ false
find-any p [] h = refl
find-any p (b ∷ bs) h = ground (arith, find-any p bs)

pick-anyone :
    (by : MatchedBy) (input : RouteInput) (bindings : List AgentBinding)
    → pick by input bindings ≡ none
    → anyone by input bindings ≡ false
unfolding pick
pick-anyone by input bindings h =
    find-any (λ b. binding_matches_scope b input && fits by input b) bindings (ground arith)

pick-by :
    (by : MatchedBy) (input : RouteInput) (bindings : List AgentBinding)
    → by_or_default (pick by input bindings)
      ≡ (if is_some (pick by input bindings) then by else by_default)
unfolding pick
pick-by by input bindings = ground arith

-- Of a chain of two, the facts about each: no earlier tier has anyone, and the match is the pick of
-- its tier.
picks-least :
    (input : RouteInput) (bindings : List AgentBinding) (by : MatchedBy)
    → rank by < rank (by_or_default (picks input bindings))
    → anyone by input bindings ≡ false
unfolding picks
picks-least input bindings by h = ground (
  arith,
  pick-by peer input bindings,
  pick-by parent_peer input bindings,
  pick-by guild_roles input bindings,
  pick-by guild input bindings,
  pick-by team input bindings,
  pick-by account input bindings,
  pick-by channel_only input bindings,
  pick-anyone by input bindings,
)

picks-pick :
    (input : RouteInput) (bindings : List AgentBinding)
    → (by_or_default (picks input bindings) ≡ by_default)
      ⊎ (pick (by_or_default (picks input bindings)) input bindings ≡ picks input bindings)
unfolding picks
picks-pick input bindings = ground (
  arith,
  pick-by peer input bindings,
  pick-by parent_peer input bindings,
  pick-by guild_roles input bindings,
  pick-by guild input bindings,
  pick-by team input bindings,
  pick-by account input bindings,
  pick-by channel_only input bindings,
)

-- The tier of a route is the first, in the order of the seven, that some binding in scope fits; the
-- agent is that of the first binding in scope that fits it. On a default route nobody fits any tier.
pub resolve_route-least :
    (is_alphanumeric : ℕ → Bool) (input : RouteInput) (bindings : List AgentBinding)
    (agents : List NamedAgentConfig) (config : SessionConfig)
    → let route = resolve_route_with_session is_alphanumeric input bindings agents config in
      ((by : MatchedBy) → rank by < rank route.matched_by → anyone by input bindings ≡ false)
      × ((route.matched_by ≡ by_default)
          ⊎ (pick route.matched_by input bindings ≡ some (route.agent_id, route.matched_by)))
unfolding resolve_route_with_session
resolve_route-least is_alphanumeric input bindings agents config = rw match_bindings-picks (
  λ by h. picks-least input bindings by h,
  elim (picks-pick input bindings) [ inl e ↦ inl e | inr e ↦ chosen (picks input bindings) e ],
)
  where
    chosen :
        (m : Matched)
        → pick (by_or_default m) input bindings ≡ m
        → (by_or_default m ≡ by_default)
          ⊎ (pick (by_or_default m) input bindings
              ≡ some (agent_or_default m agents, by_or_default m))
    chosen none e = inl refl
    chosen (some m) e = inr e
