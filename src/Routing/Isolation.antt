-- ===== src/Routing/Isolation.antt =====
-- Session keys keep conversations apart (src/agent_routing.rs).
use openpaw.Prelude.{
  ℕ, ◌≡◌, refl, ◌≢◌, ◌∙◌, sym, ap, Bool, true, false, Option, none, some, [], ◌∷◌, ◌++◌, Text,
  codes, arith, All, Bool-cases, inl, inr, text_keyed,
}
use openpaw.Routing.{ChatType, direct, group, PeerRef, per_channel_peer}
use openpaw.Routing.Normal.{IsTable, IsIdChar, normalize_id-IsNormal}
use openpaw.Routing.Keys.{
  ◌:+◌, kind_str, normalize_id, peer_key, build_session_key, marker, build_thread_session_key,
  starts_with, before_last, resolve_thread_parent_session_key,
}

-- No colon in the text.
abbrev pub NoColon : Text → Type 0
NoColon = All (λ c. c ≢ b':')

starts_with-NoColon : (p s : Text) → starts_with p s ≡ true → NoColon s → NoColon p
unfolding starts_with
starts_with-NoColon [] s h n = tt
starts_with-NoColon (c ∷ p) [] h n = cc
starts_with-NoColon (c ∷ p) (d ∷ s) h n =
    (ground (arith, n.0), starts_with-NoColon p s (ground arith) n.1)

-- The marker does not begin in a text without a colon.
before_last-none : (s : Text) → NoColon s → before_last marker s ≡ none
unfolding before_last starts_with
before_last-none [] n = refl
before_last-none (c ∷ s) n = ground (arith, before_last-none s n.1, n.0)

not_again : (s : Text) → NoColon s → starts_with (codes "thread:") s ≡ false
not_again s n = elim (Bool-cases (starts_with (codes "thread:") s)) [
  | inl e ↦
      let inside : NoColon (codes "thread:") = starts_with-NoColon (codes "thread:") s e n in
      absurd (inside.1.1.1.1.1.1.0 refl)
  | inr e ↦ e
]

marker_once : (s : Text) → NoColon s → before_last marker (marker ++ s) ≡ some []
unfolding before_last starts_with
marker_once s n = ground (arith, before_last-none s n, not_again s n)

before_last-append :
    (base s : Text) → before_last marker s ≡ some [] → before_last marker (base ++ s) ≡ some base
unfolding before_last
before_last-append [] s h = h
before_last-append (c ∷ base) s h = ground (arith, before_last-append base s h)

-- The parent of a thread's key is the key that the thread was made from, whatever that key is, for
-- every thread id without a colon.
pub parent-thread :
    (base_key thread_id : Text)
    → NoColon thread_id
    → resolve_thread_parent_session_key (build_thread_session_key base_key thread_id)
      ≡ some base_key
unfolding resolve_thread_parent_session_key build_thread_session_key
parent-thread base_key thread_id n =
    before_last-append base_key (marker ++ thread_id) (marker_once thread_id n)

-- The first colon divides a text in one way.
divide : (a b r s : Text) → NoColon a → NoColon b → (a :+ r) ≡ (b :+ s) → (a ≡ b) × (r ≡ s)
divide [] [] r s na nb e = ground arith
divide [] (d ∷ b) r s na nb e = absurd (nb.0 (ground arith))
divide (c ∷ a) [] r s na nb e = absurd (na.0 (ground arith))
divide (c ∷ a) (d ∷ b) r s na nb e = ground (arith, divide a b r s na.1 nb.1)

-- What a key says of the peer.
abbrev peer_part : Option PeerRef → Text
peer_part none = codes "none" :+ codes "none"
peer_part (some p) = kind_str p.kind :+ p.id

kind_key :
    (k : ChatType) (norm channel id : Text)
    → peer_key k norm channel id per_channel_peer none []
      ≡ codes "agent" :+ norm :+ channel :+ kind_str k :+ id
unfolding peer_key
kind_key direct norm channel id = refl
kind_key k norm channel id = refl

key_parts :
    (is_alphanumeric : ℕ → Bool) (agent_id channel : Text) (peer : Option PeerRef)
    → build_session_key is_alphanumeric agent_id channel peer
      ≡ codes "agent" :+ normalize_id is_alphanumeric agent_id :+ channel :+ peer_part peer
unfolding build_session_key
key_parts is_alphanumeric agent_id channel none = refl
key_parts is_alphanumeric agent_id channel (some p) = kind_key p.kind _ channel p.id

kind_str-NoColon : (k : ChatType) → NoColon (kind_str k)
kind_str-NoColon direct = omega arith
kind_str-NoColon k = omega arith

peer_part-injective : (p q : Option PeerRef) → peer_part p ≡ peer_part q → p ≡ q
peer_part-injective none none e = refl
peer_part-injective none (some q) e =
    let (k, i) =
      divide (codes "none") (kind_str q.kind) _ _ (omega arith) (kind_str-NoColon q.kind) e in
    absurd (named q.kind k)
  where
    named : (k : ChatType) → codes "none" ≡ kind_str k → ⊥
    named direct k = cc
    named group k = cc
    named ChatType.channel k = cc
peer_part-injective (some p) none e =
    let (k, i) =
      divide (kind_str p.kind) (codes "none") _ _ (kind_str-NoColon p.kind) (omega arith) e in
    absurd (named p.kind k)
  where
    named : (k : ChatType) → kind_str k ≡ codes "none" → ⊥
    named direct k = cc
    named group k = cc
    named ChatType.channel k = cc
peer_part-injective (some p) (some q) e =
    let (k, i) =
      divide (kind_str p.kind) (kind_str q.kind) _ _ (kind_str-NoColon p.kind)
        (kind_str-NoColon q.kind) e in
    ground (arith, same p.kind q.kind k)
  where
    same : (k l : ChatType) → kind_str k ≡ kind_str l → k ≡ l
    same k l h = ground arith

id_char-colon :
    (is_alphanumeric : ℕ → Bool) (t : Text)
    → is_alphanumeric b':' ≡ false
    → All (IsIdChar is_alphanumeric) t
    → NoColon t
id_char-colon is_alphanumeric [] h n = tt
id_char-colon is_alphanumeric (c ∷ t) h n = (
  λ e. elim n.0 [
    | inl d ↦ absurd (omega arith)
    | inr a ↦ absurd (ground (arith, ap is_alphanumeric e))
  ],
  id_char-colon is_alphanumeric t h n.1,
)

-- Two conversations share a session key in the default scope only if they are one: the same agent
-- id after normalizing, the same channel, and the same peer by kind and id (or no peer on both
-- sides). The names of the channels have no colon, and neither a dash nor a colon is alphanumeric.
pub build_session_key-injective :
    (is_alphanumeric : ℕ → Bool) (agent agent' channel channel' : Text)
    (peer peer' : Option PeerRef)
    → IsTable is_alphanumeric
    → is_alphanumeric b':' ≡ false
    → NoColon channel
    → NoColon channel'
    → build_session_key is_alphanumeric agent channel peer
      ≡ build_session_key is_alphanumeric agent' channel' peer'
    → (normalize_id is_alphanumeric agent ≡ normalize_id is_alphanumeric agent')
      × (channel ≡ channel')
      × (peer ≡ peer')
build_session_key-injective is_alphanumeric agent agent' channel channel' peer peer' table colon nc
      nc' e =
    let norm = λ (a : Text).
      id_char-colon is_alphanumeric (normalize_id is_alphanumeric a) colon
        (normalize_id-IsNormal is_alphanumeric table a).chars in
    let whole =
      sym (key_parts is_alphanumeric agent channel peer)
      ∙ e
      ∙ key_parts is_alphanumeric agent' channel' peer' in
    let (_, rest) = divide (codes "agent") (codes "agent") _ _ (omega arith) (omega arith) whole in
    let (same_agent, rest') = divide _ _ _ _ (norm agent) (norm agent') rest in
    let (same_channel, rest'') = divide channel channel' _ _ nc nc' rest' in
    (same_agent, same_channel, peer_part-injective peer peer' rest'')
