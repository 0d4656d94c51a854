-- ===== src/Routing/Matching.antt =====
-- The constraints of a binding (src/agent_routing.rs).
use openpaw.Prelude.{
  Bool, true, false, not, ◌&&◌, ◌||◌, Option, none, some, List, [], ◌∷◌, Text, text_keyed, ◌=?◌,
  any, is_some,
}
use openpaw.Routing.{PeerRef, AgentBinding, RouteInput, chat_keyed}

abbrev pub is_empty {ℓ} : {A : Type ℓ} → List A → Bool
is_empty [] = true
is_empty (x ∷ xs) = false

abbrev pub same_peer : PeerRef → PeerRef → Bool
same_peer p q = p.kind =? q.kind && p.id =? q.id

unfoldable pub peer_matches : Option PeerRef → Option PeerRef → Bool
peer_matches (some bp) (some ip) = same_peer bp ip
peer_matches _ _ = false

-- A constraint that is not set matches anything.
abbrev pub scope_ok : Option Text → Text → Bool
scope_ok none v = true
scope_ok (some c) v = c =? v

unfoldable pub binding_matches_scope : AgentBinding → RouteInput → Bool
binding_matches_scope b input =
    scope_ok b.constraint.channel input.channel && scope_ok b.constraint.account_id input.account_id

unfoldable pub is_account_only : AgentBinding → Bool
is_account_only b =
    not (is_some b.constraint.peer)
    && not (is_some b.constraint.guild_id)
    && not (is_some b.constraint.team_id)
    && is_empty b.constraint.roles

unfoldable pub is_channel_only : AgentBinding → Bool
is_channel_only b =
    not (is_some b.constraint.account_id)
    && not (is_some b.constraint.peer)
    && not (is_some b.constraint.guild_id)
    && not (is_some b.constraint.team_id)
    && is_empty b.constraint.roles

-- A peer constraint that is set wants a peer of the input, and the same.
abbrev pub peer_ok : Option PeerRef → Option PeerRef → Bool
peer_ok none check = true
peer_ok (some bp) none = false
peer_ok (some bp) (some ip) = same_peer bp ip

-- So for the guild and the team.
abbrev pub option_ok : Option Text → Option Text → Bool
option_ok none v = true
option_ok (some c) none = false
option_ok (some c) (some v) = c =? v

unfoldable pub has_matching_role : List Text → List Text → Bool
has_matching_role binding_roles member_roles =
    any (λ br. any (λ mr. br =? mr) member_roles) binding_roles

unfoldable pub all_constraints_match : AgentBinding → RouteInput → Option PeerRef → Bool
unfolding has_matching_role
all_constraints_match b input check_peer =
    peer_ok b.constraint.peer check_peer
    && option_ok b.constraint.guild_id input.guild_id
    && option_ok b.constraint.team_id input.team_id
    && (is_empty b.constraint.roles || has_matching_role b.constraint.roles input.member_role_ids)
