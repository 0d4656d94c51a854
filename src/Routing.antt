-- ===== src/Routing.antt =====
-- Agent routing (src/agent_routing.rs): its data (src/config_types.rs). Names, ids and session keys
-- are texts, lists of code points.
pub mod Keys
pub mod Matching
pub mod Resolve
pub mod Normal
pub mod Isolation
pub mod Admits
pub mod Priority
pub mod Least
pub mod Dead
mod Tests
use openpaw.Prelude.{ℕ, ◌≡◌, refl, ◌↔◌, Bool, true, false, Option, List, Text, Keyed, arith}

pub data ChatType : Type 0 where
  direct group channel : ChatType

abbrev pub chat_eq : ChatType → ChatType → Bool
chat_eq direct direct = true
chat_eq group group = true
chat_eq channel channel = true
chat_eq _ _ = false

pub chat_eq_iff : (a b : ChatType) → (chat_eq a b ≡ true) ↔ (a ≡ b)
chat_eq_iff a b = ground arith

instance abbrev pub chat_keyed : Keyed ChatType
chat_keyed = record { beq = chat_eq; beq_iff = chat_eq_iff }

pub record PeerRef : Type 0 where
  pub kind : ChatType
  pub id : Text

pub record BindingMatch : Type 0 where
  pub channel : Option Text
  pub account_id : Option Text
  pub peer : Option PeerRef
  pub guild_id : Option Text
  pub team_id : Option Text
  pub roles : List Text

-- The field `match` of the source is `constraint`; the comment is left out.
pub record AgentBinding : Type 0 where
  pub agent_id : Text
  pub constraint : BindingMatch

pub data DmScope : Type 0 where
  main per_peer per_channel_peer per_account_channel_peer : DmScope

-- `Default` is `by_default`.
pub data MatchedBy : Type 0 where
  peer parent_peer guild_roles guild team account channel_only by_default : MatchedBy

pub record ResolvedRoute : Type 0 where
  pub agent_id : Text
  pub channel : Text
  pub account_id : Text
  pub session_key : Text
  pub main_session_key : Text
  pub matched_by : MatchedBy

pub record RouteInput : Type 0 where
  pub channel : Text
  pub account_id : Text
  pub peer : Option PeerRef
  pub parent_peer : Option PeerRef
  pub guild_id : Option Text
  pub team_id : Option Text
  pub member_role_ids : List Text

pub record IdentityLink : Type 0 where
  pub canonical : Text
  pub peers : List Text

-- The fields that routing reads; the two intervals are kept.
pub record SessionConfig : Type 0 where
  pub dm_scope : DmScope
  pub idle_minutes : ℕ
  pub identity_links : List IdentityLink
  pub typing_interval_secs : ℕ

-- Of an agent's configuration routing reads the name alone.
pub record NamedAgentConfig : Type 0 where
  pub name : Text
