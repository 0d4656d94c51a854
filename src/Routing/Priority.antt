-- ===== src/Routing/Priority.antt =====
-- Which binding a route comes from (src/agent_routing.rs).
use openpaw.Prelude.{
  ap, ℕ, ◌≡◌, refl, ◌⊎◌, inl, inr, Bool, true, ◌&&◌, Option, none, some, List, [], ◌∷◌, Text,
  retain, text_keyed, Bool-cases, Option-cases, arith,
}
use mathlib.Core.List.{Memᴰ}
use openpaw.Routing.{
  PeerRef, AgentBinding, MatchedBy, RouteInput, NamedAgentConfig, SessionConfig, chat_keyed,
}
use openpaw.Routing.Matching.{binding_matches_scope}
use openpaw.Routing.Keys.{find_default_agent}
use openpaw.Routing.Admits.{
  Admits, peer_test-Admits, roles_test-Admits, guild_test-Admits, team_test-Admits,
  account_test-Admits, channel_test-Admits,
}
use openpaw.Routing.Resolve.{
  Matched, first_match, peer_test, peer_tier, roles_test, roles_tier, guild_test, guild_tier,
  team_test, team_tier, account_test, channel_test, or_try, scoped_bindings, match_bindings,
  resolve_route_with_session,
}

-- A route that a loop over the bindings in scope found stands for a binding that passed the test.
first_match_sound :
    (p test : AgentBinding → Bool) (by : MatchedBy) (bs : List AgentBinding) (m : Text × MatchedBy)
    → first_match test by (retain p bs) ≡ some m
    → (b : AgentBinding) × (Memᴰ b bs) × (p b ≡ true) × (test b ≡ true) × (m ≡ (b.agent_id, by))
unfolding first_match
first_match_sound p test by [] m h = absurd (ground arith)
first_match_sound p test by (b ∷ bs) m h = elim (Bool-cases (p b && test b)) [
  | inl e ↦ (b, Memᴰ.head refl, ground arith, ground arith, ground arith)
  | inr e ↦
      let (b', at, scope, ok, eq) = first_match_sound p test by bs m (ground arith) in
      (b', Memᴰ.tail at, scope, ok, eq)
]

-- The agent of a match is that of a binding which admits the input.
abbrev pub IsFrom : RouteInput → List AgentBinding → Text → Type 0
IsFrom input bindings agent =
    (b : AgentBinding) × (Memᴰ b bindings) × (Admits input b) × (agent ≡ b.agent_id)

module _ (input : RouteInput) (bindings : List AgentBinding) (m : Text × MatchedBy) where
  -- A loop whose test admits the input.
  loop-IsFrom :
      (test : AgentBinding → Bool) (by : MatchedBy)
      → ((b : AgentBinding) → binding_matches_scope b input ≡ true → test b ≡ true → Admits input b)
      → first_match test by (scoped_bindings input bindings) ≡ some m
      → IsFrom input bindings m.0
  unfolding scoped_bindings
  loop-IsFrom test by admits h =
      let (b, at, scope, ok, eq) =
        first_match_sound (λ b. binding_matches_scope b input) test by bindings m h in
      (b, at, admits b scope ok, ap (λ r. r.0) eq)

  peer_tier-IsFrom :
      (p : Option PeerRef) (by : MatchedBy)
      → ((q : PeerRef) → p ≡ some q → (input.peer ≡ some q) ⊎ (input.parent_peer ≡ some q))
      → peer_tier input p by (scoped_bindings input bindings) ≡ some m
      → IsFrom input bindings m.0
  unfolding peer_tier
  peer_tier-IsFrom none by own h = absurd (ground arith)
  peer_tier-IsFrom (some p) by own h =
      loop-IsFrom (peer_test input p) by
        (λ b scope ok. peer_test-Admits input b scope p (own p refl) ok) h

  roles_tier-IsFrom :
      roles_tier input (scoped_bindings input bindings) ≡ some m → IsFrom input bindings m.0
  unfolding roles_tier
  roles_tier-IsFrom h =
      loop-IsFrom (roles_test input) MatchedBy.guild_roles
        (λ b scope ok. roles_test-Admits input b scope ok) (ground arith)

  guild_tier-IsFrom :
      (g : Option Text)
      → input.guild_id ≡ g
      → guild_tier g (scoped_bindings input bindings) ≡ some m
      → IsFrom input bindings m.0
  unfolding guild_tier
  guild_tier-IsFrom none e h = absurd (ground arith)
  guild_tier-IsFrom (some g) e h =
      loop-IsFrom (guild_test g) MatchedBy.guild
        (λ b scope ok. guild_test-Admits input b scope g e ok) h

  team_tier-IsFrom :
      (t : Option Text)
      → input.team_id ≡ t
      → team_tier t (scoped_bindings input bindings) ≡ some m
      → IsFrom input bindings m.0
  unfolding team_tier
  team_tier-IsFrom none e h = absurd (ground arith)
  team_tier-IsFrom (some t) e h =
      loop-IsFrom (team_test t) MatchedBy.team (λ b scope ok. team_test-Admits input b scope t e ok)
        h

  or_try-cases : (x y : Matched) → or_try x y ≡ some m → (x ≡ some m) ⊎ (y ≡ some m)
  or_try-cases none y h = inr h
  or_try-cases (some n) y h = inl h

  match_bindings-IsFrom : match_bindings input bindings ≡ some m → IsFrom input bindings m.0
  unfolding match_bindings
  match_bindings-IsFrom h = elim (or_try-cases _ _ h) [
    | inl h1 ↦ peer_tier-IsFrom input.peer MatchedBy.peer (λ q e. inl e) h1
    | inr h1 ↦ elim (or_try-cases _ _ h1) [
      | inl h2 ↦ peer_tier-IsFrom input.parent_peer MatchedBy.parent_peer (λ q e. inr e) h2
      | inr h2 ↦ elim (or_try-cases _ _ h2) [
        | inl h3 ↦ roles_tier-IsFrom h3
        | inr h3 ↦ elim (or_try-cases _ _ h3) [
          | inl h4 ↦ guild_tier-IsFrom input.guild_id refl h4
          | inr h4 ↦ elim (or_try-cases _ _ h4) [
            | inl h5 ↦ team_tier-IsFrom input.team_id refl h5
            | inr h5 ↦ elim (or_try-cases _ _ h5) [
              | inl h6 ↦
                  loop-IsFrom account_test MatchedBy.account
                    (λ b scope ok. account_test-Admits input b scope ok) h6
              | inr h6 ↦
                  loop-IsFrom channel_test MatchedBy.channel_only
                    (λ b scope ok. channel_test-Admits input b scope ok) h6
            ]
          ]
        ]
      ]
    ]
  ]

-- The route's agent is the agent of a configured binding of which every constraint holds of the input
-- (channel, account, peer or parent peer, guild, team, roles), unless the route is a default one:
-- then it is the default agent.
pub resolve_route-Admits :
    (is_alphanumeric : ℕ → Bool) (input : RouteInput) (bindings : List AgentBinding)
    (agents : List NamedAgentConfig) (config : SessionConfig)
    → let route = resolve_route_with_session is_alphanumeric input bindings agents config in
      IsFrom input bindings route.agent_id
      ⊎ ((route.matched_by ≡ MatchedBy.by_default) × (route.agent_id ≡ find_default_agent agents))
unfolding resolve_route_with_session
resolve_route-Admits is_alphanumeric input bindings agents config =
    elim (Option-cases (match_bindings input bindings)) [
      | inl e ↦ inr (ground arith, ground arith)
      | inr (m, e) ↦ inl (rw e (match_bindings-IsFrom input bindings m e))
    ]
