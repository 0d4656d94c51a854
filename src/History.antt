-- ===== src/History.antt =====
-- The messages of a conversation (src/providers/mod.rs), for the compaction of a history
-- (src/agent/compaction.rs). Roles, names and ids are strings that are compared; contents are texts,
-- whose `len` counts the bytes of UTF-8.
pub mod Pairs
pub mod Paired
pub mod Sanitized
pub mod Cut
pub mod Bounds
pub mod Prune
pub mod Pruned
pub mod Serialize
pub mod Ascii
pub mod Compress
pub mod Compressed
mod Tests
use openpaw.Prelude.{
  ℕ, ◌+◌, ◌*◌, ◌/◌, Bool, true, false, ◌&&◌, ◌||◌, Option, none, some, List, [], ◌∷◌, ◌++◌, String,
  Text, ◌=?◌, Keyed, string_keyed, if◌then◌else◌, ltb, codes, count,
}

pub data ContentPart : Type 0 where
  text : Text → ContentPart
  image_base64 : (payload media_type : Text) → ContentPart
  image_url : Text → ContentPart
  media : (mime_type : Text) (payload : List ℕ) → ContentPart

-- `FunctionCall` stands in place of the field `function`.
pub record ToolCall : Type 0 where
  pub id : String
  pub kind : String
  pub name : String
  pub arguments : Text
  pub thought_signature : Option Text

pub record ChatMessage : Type 0 where
  pub role : String
  pub content : Text
  pub name : Option String
  pub tool_calls : Option (List ToolCall)
  pub tool_call_id : Option String
  pub content_parts : Option (List ContentPart)
  pub thought_signature : Option Text

-- A message of a role with a content and nothing else.
abbrev pub plain : String → Text → ChatMessage
plain role content = record {
  role = role;
  content = content;
  name = none;
  tool_calls = none;
  tool_call_id = none;
  content_parts = none;
  thought_signature = none;
}

unfoldable pub user : Text → ChatMessage
user content = plain "user" content

unfoldable pub assistant : Text → ChatMessage
assistant content = plain "assistant" content

unfoldable pub system : Text → ChatMessage
system content = plain "system" content

abbrev pub is_role : String → ChatMessage → Bool
is_role role m = m.role =? role

-- The tool calls of a message, none for `None`.
abbrev pub calls_of : ChatMessage → List ToolCall
calls_of m = elim m.tool_calls [ none ↦ [] | some tcs ↦ tcs ]

-- The number of bytes of a code point in UTF-8, and of a text.
abbrev pub utf8_len : ℕ → ℕ
utf8_len c = if ltb c 128 then 1 else if ltb c 2048 then 2 else if ltb c 65536 then 3 else 4

unfoldable pub len : Text → ℕ
len [] = 0
len (c ∷ s) = utf8_len c + len s

-- The estimates of src/token_estimator.rs: a token for each four bytes, and 1600 for an image.
unfoldable pub estimate_tokens_rough : Text → ℕ
unfolding len
estimate_tokens_rough [] = 0
estimate_tokens_rough (c ∷ s) = (len (c ∷ s) + 3) / 4

abbrev pub calls_len : List ToolCall → ℕ
calls_len [] = 0
calls_len (tc ∷ tcs) = len (codes tc.id) + len (codes tc.name) + len tc.arguments + calls_len tcs

abbrev pub is_image : ContentPart → Bool
is_image (text _) = false
is_image (image_base64 _ _) = true
is_image (image_url _) = true
is_image (media _ _) = true

abbrev pub images_of : ChatMessage → ℕ
images_of m = elim m.content_parts [ none ↦ 0 | some parts ↦ count is_image parts ]

abbrev pub message_len : ChatMessage → ℕ
message_len m =
    len (codes m.role)
    + len m.content
    + elim m.name [ none ↦ 0 | some name ↦ len (codes name) ]
    + calls_len (calls_of m)

abbrev pub total_len : List ChatMessage → ℕ
total_len [] = 0
total_len (m ∷ ms) = message_len m + total_len ms

abbrev pub image_count : List ChatMessage → ℕ
image_count [] = 0
image_count (m ∷ ms) = images_of m + image_count ms

unfoldable pub estimate_history_tokens_rough : List ChatMessage → ℕ
estimate_history_tokens_rough ms = (total_len ms + 3) / 4 + image_count ms * 1600
