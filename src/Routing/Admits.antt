-- ===== src/Routing/Admits.antt =====
-- What a binding asks for, and what the tests of the tiers check (src/agent_routing.rs).
use openpaw.Prelude.{
  ◌≡◌, refl, ◌⊎◌, inl, inr, true, false, ◌||◌, Option, none, some, List, [], ◌∷◌, Text, text_keyed,
  arith, is_some,
}
use openpaw.Routing.{PeerRef, AgentBinding, RouteInput, chat_keyed, chat_eq_iff}
use openpaw.Routing.Matching.{
  is_empty, same_peer, scope_ok, peer_ok, option_ok, has_matching_role, binding_matches_scope,
}
use openpaw.Routing.Resolve.{
  peer_test, roles_test, guild_test, team_test, is_id, account_test, channel_test,
}

-- A constraint holds of what the input has: it is not set, or it is that value.
abbrev pub Meets {ℓ} : {A : Type ℓ} → Option A → Option A → Type ℓ
Meets none v = Unit
Meets (some c) v = v ≡ some c

-- The roles of a binding: none, or one of them is a role of the member.
abbrev pub MeetsRoles : List Text → List Text → Type 0
MeetsRoles binding_roles member_roles =
    (binding_roles ≡ []) ⊎ (has_matching_role binding_roles member_roles ≡ true)

-- Everything a binding asks for holds of the input; the peer it asks for is the input's peer or the
-- parent peer.
pub record Admits (input : RouteInput) (b : AgentBinding) : Type 0 where
  pub channel : Meets b.constraint.channel (some input.channel)
  pub account : Meets b.constraint.account_id (some input.account_id)
  pub peer : Meets b.constraint.peer input.peer ⊎ Meets b.constraint.peer input.parent_peer
  pub guild : Meets b.constraint.guild_id input.guild_id
  pub team : Meets b.constraint.team_id input.team_id
  pub roles : MeetsRoles b.constraint.roles input.member_role_ids

scope_ok-Meets : (c : Option Text) (v : Text) → scope_ok c v ≡ true → Meets c (some v)
scope_ok-Meets none v h = tt
scope_ok-Meets (some c) v h = ground (arith, text_keyed.beq_iff c v)

option_ok-Meets : (c v : Option Text) → option_ok c v ≡ true → Meets c v
option_ok-Meets none v h = tt
option_ok-Meets (some c) none h = absurd (ground arith)
option_ok-Meets (some c) (some v) h = ground (arith, text_keyed.beq_iff c v)

is_id-Meets : (c : Option Text) (v : Text) → is_id c v ≡ true → Meets c (some v)
is_id-Meets none v h = tt
is_id-Meets (some c) v h = ground (arith, text_keyed.beq_iff c v)

same_peer-eq : (p q : PeerRef) → same_peer p q ≡ true → p ≡ q
same_peer-eq p q h = ground (arith, chat_eq_iff p.kind q.kind, text_keyed.beq_iff p.id q.id)

peer_ok-Meets : (c v : Option PeerRef) → peer_ok c v ≡ true → Meets c v
peer_ok-Meets none v h = tt
peer_ok-Meets (some p) none h = absurd (ground arith)
peer_ok-Meets (some p) (some q) h = ground (arith, same_peer-eq p q)

unset-Meets {ℓ} : {A : Type ℓ} (c v : Option A) → is_some c ≡ false → Meets c v
unset-Meets none v h = tt
unset-Meets (some c) v h = absurd (ground arith)

roles-Meets :
    (bs ms : List Text) → (is_empty bs || has_matching_role bs ms) ≡ true → MeetsRoles bs ms
roles-Meets [] ms h = inl refl
roles-Meets (r ∷ bs) ms h = inr h

empty-Meets : (bs ms : List Text) → is_empty bs ≡ true → MeetsRoles bs ms
empty-Meets [] ms h = inl refl
empty-Meets (r ∷ bs) ms h = absurd (ground arith)

-- What the scope filter and one of the tests say together.
module _ (input : RouteInput) (b : AgentBinding)
    (scope : binding_matches_scope b input ≡ true) where
  open b.constraint use {channel, account_id, peer, guild_id, team_id, roles}

  scope-channel : Meets channel (some input.channel)
  unfolding binding_matches_scope
  scope-channel = scope_ok-Meets channel input.channel (ground arith)

  scope-account : Meets account_id (some input.account_id)
  unfolding binding_matches_scope
  scope-account = scope_ok-Meets account_id input.account_id (ground arith)

  pub peer_test-Admits :
      (p : PeerRef)
      → (input.peer ≡ some p) ⊎ (input.parent_peer ≡ some p)
      → peer_test input p b ≡ true
      → Admits input b
  unfolding peer_test
  peer_test-Admits p own h = record {
    channel = scope-channel;
    account = scope-account;
    peer =
        let meets = peer_ok-Meets peer (some p) (ground arith) in
        elim own [ inl e ↦ inl (rw e meets) | inr e ↦ inr (rw e meets) ];
    guild = option_ok-Meets guild_id input.guild_id (ground arith);
    team = option_ok-Meets team_id input.team_id (ground arith);
    roles = roles-Meets roles input.member_role_ids (ground arith);
  }

  pub roles_test-Admits : roles_test input b ≡ true → Admits input b
  unfolding roles_test
  roles_test-Admits h = record {
    channel = scope-channel;
    account = scope-account;
    peer = inl (peer_ok-Meets peer input.peer (ground arith));
    guild = option_ok-Meets guild_id input.guild_id (ground arith);
    team = option_ok-Meets team_id input.team_id (ground arith);
    roles = roles-Meets roles input.member_role_ids (ground arith);
  }

  pub guild_test-Admits :
      (g : Text) → input.guild_id ≡ some g → guild_test g b ≡ true → Admits input b
  unfolding guild_test
  guild_test-Admits g e h = record {
    channel = scope-channel;
    account = scope-account;
    peer = inl (unset-Meets peer input.peer (ground arith));
    guild = rw e (is_id-Meets guild_id g (ground arith));
    team = unset-Meets team_id input.team_id (ground arith);
    roles = empty-Meets roles input.member_role_ids (ground arith);
  }

  pub team_test-Admits : (t : Text) → input.team_id ≡ some t → team_test t b ≡ true → Admits input b
  unfolding team_test
  team_test-Admits t e h = record {
    channel = scope-channel;
    account = scope-account;
    peer = inl (unset-Meets peer input.peer (ground arith));
    guild = unset-Meets guild_id input.guild_id (ground arith);
    team = rw e (is_id-Meets team_id t (ground arith));
    roles = empty-Meets roles input.member_role_ids (ground arith);
  }

  pub account_test-Admits : account_test b ≡ true → Admits input b
  unfolding account_test
  account_test-Admits h = record {
    channel = scope-channel;
    account = scope-account;
    peer = inl (unset-Meets peer input.peer (ground arith));
    guild = unset-Meets guild_id input.guild_id (ground arith);
    team = unset-Meets team_id input.team_id (ground arith);
    roles = empty-Meets roles input.member_role_ids (ground arith);
  }

  pub channel_test-Admits : channel_test b ≡ true → Admits input b
  unfolding channel_test
  channel_test-Admits h = record {
    channel = scope-channel;
    account = scope-account;
    peer = inl (unset-Meets peer input.peer (ground arith));
    guild = unset-Meets guild_id input.guild_id (ground arith);
    team = unset-Meets team_id input.team_id (ground arith);
    roles = empty-Meets roles input.member_role_ids (ground arith);
  }
