-- ===== src/Web/Chats.antt =====
-- src/local_graph_rag/web/schemas.py: the limits on a chat request, and the question in it.
pub mod Limits
use local_graph_rag.Prelude.{
  ℕ, ◌+◌, Bool, true, false, not, ◌&&◌, Option, none, some, List, [], ◌∷◌, ◌++◌, map, length,
  is_empty, contains, ltb, nat_eq, list_eq, ◌==◌, if◌then◌else◌,
}
use local_graph_rag.Prelude.Text.{Str, codes, strip, join}

-- The fields of one item of a structured content; the keys are distinct.
abbrev pub Part : Type 0
Part = List (Str × Str)

pub data Content : Type 0 where
  plain : Str → Content
  parts : List Part → Content

pub record Message : Type 0 where
  pub role : Str
  pub content : Content

-- The limits of the settings, and CHAT_MODELS.
pub record ChatLimits : Type 0 where
  pub chat_models : List Str
  pub max_message_chars : ℕ
  pub max_total_chars : ℕ
  pub max_content_items : ℕ
  pub max_question_chars : ℕ

-- The sum over the values of the items.
unfoldable pub part_size : Part → ℕ
part_size [] = 0
part_size ((key, value) ∷ fields) = length value + part_size fields

unfoldable pub parts_size : List Part → ℕ
unfolding part_size
parts_size [] = 0
parts_size (p ∷ ps) = part_size p + parts_size ps

-- _message_size
unfoldable pub message_size : Content → ℕ
unfolding parts_size
message_size (plain s) = length s
message_size (parts ps) = parts_size ps

-- `isinstance(message.content, list) and len(message.content) > MAX_CHAT_CONTENT_ITEMS`
unfoldable pub has_too_many_items : ℕ → Content → Bool
has_too_many_items limit (plain s) = false
has_too_many_items limit (parts ps) = ltb limit (length ps)

-- The return of `validate_chat_request`, or the reason of its 400.
pub data Validity : Type 0 where
  valid model_unavailable message_too_large request_too_large too_many_items : Validity

-- The loop over the messages, `total` characters after those before.
unfoldable pub validate_messages : ChatLimits → ℕ → List Message → Validity
unfolding message_size has_too_many_items
validate_messages limits total [] = valid
validate_messages limits total (m ∷ ms) =
    let size = message_size m.content in
    let later = validate_messages limits (total + size) ms in
    if ltb limits.max_message_chars size
    then message_too_large
    else if ltb limits.max_total_chars (total + size)
    then request_too_large
    else if has_too_many_items limits.max_content_items m.content
    then too_many_items
    else later

unfoldable pub validate_chat_request : ChatLimits → Str → List Message → Validity
unfolding validate_messages
validate_chat_request limits model messages =
    if contains model limits.chat_models
    then validate_messages limits 0 messages
    else model_unavailable

-- item.get("text", "")
unfoldable pub text_of : Part → Str
text_of [] = []
text_of ((key, value) ∷ fields) =
    let rest = text_of fields in if key == codes "text" then value else rest

unfoldable pub content_text : Content → Str
unfolding text_of
content_text (plain s) = s
content_text (parts ps) = join (codes " ") (map text_of ps)

abbrev pub is_user : Message → Bool
is_user m = m.role == codes "user"

-- The last message of the user.
unfoldable pub last_user_message : List Message → Option Message
last_user_message [] = none
last_user_message (m ∷ ms) = elim (last_user_message ms) [
  | some later ↦ some later
  | none ↦ if is_user m then some m else none
]

-- The question, or a 400.
pub data Question : Type 0 where
  question : Str → Question
  no_user_message question_empty question_too_long : Question

unfoldable pub check_question : ChatLimits → Str → Question
check_question limits text =
    if is_empty text
    then question_empty
    else if ltb limits.max_question_chars (length text)
    then question_too_long
    else question text

-- extract_question_from_messages
unfoldable pub extract_question_from_messages : ChatLimits → List Message → Question
unfolding last_user_message content_text check_question
extract_question_from_messages limits messages = elim (last_user_message messages) [
  | none ↦ no_user_message
  | some m ↦ check_question limits (strip (content_text m.content))
]
