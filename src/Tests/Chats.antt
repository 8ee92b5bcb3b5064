-- ===== src/Tests/Chats.antt =====
-- Chat requests and logins on small inputs.
use local_graph_rag.Prelude.{
  ltb, ◌+◌, ◌&&◌, if◌then◌else◌, none, ◌≤◌, ◌≡◌, ◌↔◌, refl, Bool, true, false, some, List, [], ◌∷◌,
  ◌++◌, length, is_empty, All, In, nat_eq, list_eq, ◌==◌, arith,
}
use local_graph_rag.Prelude.Text.{Str, codes, strip, strip_of, drop_while, rstrip, is_space, join}
use local_graph_rag.Web.Chats.{
  Message, plain, parts, ChatLimits, valid, validate_chat_request, validate_messages, message_size,
  parts_size, part_size, has_too_many_items, content_text, text_of, question,
  extract_question_from_messages, last_user_message, check_question,
}
use local_graph_rag.Web.Chats.Limits.{
  total_size, IsSmall, IsLastOfUser, validate_chat_request-exact, extract_question-of_last,
}
use local_graph_rag.Web.Users.{
  has_user, Users, password_hash_of, upsert_user, create_session, validate_session,
}
use local_graph_rag.Web.Login.{
  Credentials, granted, invalid_credentials, matches, open_session, login, password_fits_bcrypt,
  encoded_size, utf8_size,
}
use local_graph_rag.Web.Login.Grants.{login-granted, login-overtaken}

abbrev limits : ChatLimits
limits = record {
  chat_models = codes "m" ∷ [];
  max_message_chars = 9;
  max_total_chars = 12;
  max_content_items = 2;
  max_question_chars = 5;
}

abbrev messages : List Message
messages =
    record { role = codes "user"; content = parts (((codes "text", codes " hi ") ∷ []) ∷ []) }
    ∷ record { role = codes "assistant"; content = plain (codes "hello") }
    ∷ []

taken : validate_chat_request limits (codes "m") messages ≡ valid
unfolding validate_chat_request validate_messages message_size parts_size part_size
    has_too_many_items
taken = refl

validate_chat_request-exact_example : validate_chat_request limits (codes "m") messages ≡ valid ↔ (
    In (codes "m") limits.chat_models
    × ((total_size messages ≤ limits.max_total_chars) × All (IsSmall limits) messages))
validate_chat_request-exact_example = validate_chat_request-exact limits (codes "m") messages

asked : extract_question_from_messages limits messages ≡ question (codes "hi")
unfolding extract_question_from_messages last_user_message content_text text_of check_question strip
    strip_of drop_while rstrip is_space join
asked = refl

extract_question-of_last_example :
    (m : Message) × (IsLastOfUser limits messages m
      × ((codes "hi" ≡ strip (content_text m.content))
          × ((is_empty (codes "hi") ≡ false) × (length (codes "hi") ≤ limits.max_question_chars))))
extract_question-of_last_example = extract_question-of_last limits messages (codes "hi") asked

-- A digest and a hash of passwords, for these runs.
abbrev digest : Str → Str
digest s = codes "#" ++ s

abbrev checkpw : Str → Str → Bool
checkpw password stored = (codes "$" ++ password) == stored

abbrev ann : Str
ann = codes "ann"

abbrev accounts : Users
accounts = record {
  users = record { username = ann; password_hash = codes "$p"; created_at = 0 } ∷ [];
  sessions = [];
}

abbrev credentials : Credentials
credentials = record { username = ann; password = codes "p" }

let_in :
    (login digest checkpw (codes "t") 10 4 credentials accounts accounts).0 ≡ granted (codes "t")
unfolding login open_session matches password_fits_bcrypt encoded_size utf8_size password_hash_of
    create_session
let_in = refl

login-granted_example :
    (codes "t" ≡ codes "t")
    × (((stored : Str) × ((password_hash_of ann accounts ≡ some stored)
            × (checkpw (codes "p") stored ≡ true)))
        × (validate_session digest
              (codes "t")
              13
              (login digest checkpw (codes "t") 10 4 credentials accounts accounts).1
            ≡ (if has_user ann accounts.users && ltb 13 (4 + 10) then some ann else none)))
login-granted_example =
    login-granted digest checkpw (codes "t") 10 4 13 credentials accounts accounts (codes "t")
      let_in

abbrev changed_accounts : Users
changed_accounts = upsert_user ann (codes "$q") 3 accounts

fits : password_fits_bcrypt (codes "p") ≡ some true
unfolding password_fits_bcrypt encoded_size utf8_size
fits = refl

stored_hash : password_hash_of ann accounts ≡ some (codes "$p")
unfolding password_hash_of
stored_hash = refl

login-overtaken_example :
    ((login digest checkpw (codes "t") 10 4 credentials accounts changed_accounts).0
      ≡ granted (codes "t"))
    × ((validate_session digest
            (codes "t")
            13
            (login digest checkpw (codes "t") 10 4 credentials accounts changed_accounts).1
          ≡ some ann)
        × ((login digest checkpw (codes "t") 10 4 credentials changed_accounts changed_accounts).0
            ≡ invalid_credentials))
login-overtaken_example =
    login-overtaken digest checkpw (codes "t") 10 4 13 credentials accounts (codes "$p")
      (codes "$q") 3 fits stored_hash refl refl refl refl (omega arith)
