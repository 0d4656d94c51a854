-- ===== src/Routing/Keys.antt =====
-- Ids and session keys (src/agent_routing.rs, the helpers at its head).
use openpaw.Prelude.{
  ℕ, zero, suc, ◌+◌, Bool, true, false, ◌&&◌, Option, none, some, List, [], ◌∷◌, ◌++◌, Text, codes,
  text_keyed, ◌=?◌, ◌==◌, leb, if◌then◌else◌, any, length,
}
use openpaw.Routing.{
  ChatType, PeerRef, DmScope, main, per_peer, per_channel_peer, per_account_channel_peer, direct,
  group, IdentityLink, NamedAgentConfig,
}

-- `char::to_ascii_lowercase`.
unfoldable pub to_ascii_lowercase : ℕ → ℕ
to_ascii_lowercase c = if leb b'A' c && leb c b'Z' then c + 32 else c

-- The leading dashes off.
unfoldable pub trim_start : Text → Text
trim_start [] = []
trim_start (c ∷ s) = if c == b'-' then trim_start s else c ∷ s

-- The trailing dashes off.
unfoldable pub trim_end : Text → Text
trim_end [] = []
trim_end (c ∷ s) = let rest = trim_end s in if c == b'-' && length rest == 0 then [] else c ∷ rest

-- `trim_matches('-')`.
abbrev pub trim_matches : Text → Text
trim_matches s = trim_end (trim_start s)

abbrev pub default_id : Text
default_id = codes "default"

-- An id with nothing left is the default.
unfoldable pub or_default : Text → Text
or_default [] = default_id
or_default (c ∷ s) = c ∷ s

-- The Unicode table behind `char::is_alphanumeric` is an argument.
module _ (is_alphanumeric : ℕ → Bool) where
  -- The loop of `normalize_id`, with what is left of the 64 characters.
  unfoldable pub normalize_chars : ℕ → Text → Text
  normalize_chars zero s = []
  normalize_chars (suc room) [] = []
  normalize_chars (suc room) (c ∷ s) =
      (if is_alphanumeric c then to_ascii_lowercase c else b'-') ∷ normalize_chars room s

  unfoldable pub normalize_id : Text → Text
  unfolding or_default
  normalize_id [] = default_id
  normalize_id (c ∷ s) = or_default (trim_matches (normalize_chars 64 (c ∷ s)))

unfoldable pub resolve_linked_peer_id : Text → List IdentityLink → Text
resolve_linked_peer_id peer_id [] = peer_id
resolve_linked_peer_id peer_id (link ∷ links) =
    if any (λ linked. linked =? peer_id) link.peers
    then link.canonical
    else resolve_linked_peer_id peer_id links

abbrev pub kind_str : ChatType → Text
kind_str direct = codes "direct"
kind_str group = codes "group"
kind_str ChatType.channel = codes "channel"

-- `format!("{}:{}", a, b)`.
infixr 66 ◌:+◌
abbrev pub ◌:+◌ : Text → Text → Text
a :+ b = a ++ b':' ∷ b

abbrev account_or_default : Option Text → Text
account_or_default none = codes "default"
account_or_default (some a) = a

-- The key of a direct chat, by its scope; `norm_agent` is the normalized agent id.
unfoldable pub direct_key : DmScope → Text → Text → Option Text → Text → Text
direct_key main norm_agent channel account peer = codes "agent" :+ norm_agent :+ codes "main"
direct_key per_peer norm_agent channel account peer =
    codes "agent" :+ norm_agent :+ codes "direct" :+ peer
direct_key per_channel_peer norm_agent channel account peer =
    codes "agent" :+ norm_agent :+ channel :+ codes "direct" :+ peer
direct_key per_account_channel_peer norm_agent channel account peer =
    codes "agent" :+ norm_agent :+ channel :+ account_or_default account :+ codes "direct" :+ peer

-- The key of a peer, by its kind.
unfoldable pub peer_key :
    ChatType → Text → Text → Text → DmScope → Option Text → List IdentityLink → Text
unfolding direct_key resolve_linked_peer_id
peer_key direct norm_agent channel id scope account links =
    direct_key scope norm_agent channel account (resolve_linked_peer_id id links)
peer_key kind norm_agent channel id scope account links =
    codes "agent" :+ norm_agent :+ channel :+ kind_str kind :+ id

module _ (is_alphanumeric : ℕ → Bool) where
  unfoldable pub build_session_key_with_scope :
      Text → Text → Option PeerRef → DmScope → Option Text → List IdentityLink → Text
  unfolding peer_key
  build_session_key_with_scope agent_id channel none scope account links =
      codes "agent"
      :+ normalize_id is_alphanumeric agent_id
      :+ channel
      :+ codes "none"
      :+ codes "none"
  build_session_key_with_scope agent_id channel (some p) scope account links =
      peer_key p.kind (normalize_id is_alphanumeric agent_id) channel p.id scope account links

  unfoldable pub build_session_key : Text → Text → Option PeerRef → Text
  unfolding build_session_key_with_scope
  build_session_key agent_id channel peer =
      build_session_key_with_scope agent_id channel peer per_channel_peer none []

  unfoldable pub build_main_session_key : Text → Text
  build_main_session_key agent_id =
      codes "agent" :+ normalize_id is_alphanumeric agent_id :+ codes "main"

abbrev pub marker : Text
marker = codes ":thread:"

unfoldable pub build_thread_session_key : Text → Text → Text
build_thread_session_key base_key thread_id = base_key ++ (marker ++ thread_id)

-- Whether a text begins with another.
unfoldable pub starts_with : Text → Text → Bool
starts_with [] s = true
starts_with (p ∷ ps) [] = false
starts_with (p ∷ ps) (c ∷ s) = p == c && starts_with ps s

-- The text before the last place where the pattern begins, if there is one: `&s[0..s.rfind(pat)?]`.
unfoldable pub before_last : Text → Text → Option Text
unfolding starts_with
before_last pat [] = none
before_last pat (c ∷ s) = elim (before_last pat s) [
  | some head ↦ some (c ∷ head)
  | none ↦ if starts_with pat (c ∷ s) then some [] else none
]

unfoldable pub resolve_thread_parent_session_key : Text → Option Text
unfolding before_last
resolve_thread_parent_session_key key = before_last marker key

unfoldable pub find_default_agent : List NamedAgentConfig → Text
find_default_agent [] = codes "main"
find_default_agent (agent ∷ agents) = agent.name
