-- ===== src/Web/Login.antt =====
-- src/local_graph_rag/web/routes.py: login, logout and the status of a session. bcrypt's `checkpw`
-- runs in a thread, so that other requests may change the accounts between the look-up of the hash
-- and the creation of the session.
pub mod Grants
use local_graph_rag.Prelude.{
  ℕ, ◌+◌, Bool, true, false, not, ◌&&◌, ◌||◌, Option, none, some, List, [], ◌∷◌, is_empty, leb, ltb,
  if◌then◌else◌,
}
use local_graph_rag.Prelude.Text.{Str}
use local_graph_rag.Web.Users.{
  Users, password_hash_of, create_session, delete_session, is_valid_token,
}

-- The bytes of a code point in UTF-8; a surrogate has none, and `encode` raises.
unfoldable pub utf8_size : ℕ → Option ℕ
utf8_size c =
    if ltb c 128
    then some 1
    else if ltb c 2048
    then some 2
    else if leb 55296 c && leb c 57343
    then none
    else if ltb c 65536
    then some 3
    else some 4

abbrev pub add_size : Option ℕ → Option ℕ → Option ℕ
add_size none n = none
add_size (some m) none = none
add_size (some m) (some n) = some (m + n)

-- len(s.encode())
unfoldable pub encoded_size : Str → Option ℕ
unfolding utf8_size
encoded_size [] = some 0
encoded_size (c ∷ cs) = add_size (utf8_size c) (encoded_size cs)

-- BCRYPT_MAX_PASSWORD_BYTES
abbrev pub bcrypt_max_password_bytes : ℕ
bcrypt_max_password_bytes = 72

-- password_fits_bcrypt
unfoldable pub password_fits_bcrypt : Str → Option Bool
unfolding encoded_size
password_fits_bcrypt password = elim (encoded_size password) [
  | none ↦ none
  | some size ↦ some (leb size bcrypt_max_password_bytes)
]

pub record Credentials : Type 0 where
  pub username : Str
  pub password : Str

-- The response of a login: 200 with a cookie that holds the token, 400, 401, or 500.
pub data LoginReply : Type 0 where
  granted : Str → LoginReply
  too_long invalid_credentials login_raised : LoginReply

-- `stored and password_matches`: bcrypt is asked too where there is no hash.
unfoldable pub matches : (Str → Str → Bool) → Str → Option Str → Bool
matches checkpw password none = false
matches checkpw password (some stored) = not (is_empty stored) && checkpw password stored

module _ (token_hash : Str → Str) where
  -- `create_session` and the cookie, for a token that is drawn
  unfoldable pub open_session : Str → Str → ℕ → ℕ → Users → LoginReply × Users
  open_session token username expiry_seconds now s =
      elim (create_session token_hash token username expiry_seconds now s) [
        | none ↦ (login_raised, s)
        | some s' ↦ (granted token, s')
      ]

  -- `login`: the hash is read from `s`, and the session is created in `s'`.
  unfoldable pub login :
      (Str → Str → Bool) → Str → ℕ → ℕ → Credentials → Users → Users → LoginReply × Users
  unfolding matches open_session
  login checkpw token expiry_seconds now credentials s s' =
      elim (password_fits_bcrypt credentials.password) [
        | none ↦ (login_raised, s')
        | some false ↦ (too_long, s')
        | some true ↦
            if matches checkpw credentials.password (password_hash_of credentials.username s)
            then open_session token credentials.username expiry_seconds now s'
            else (invalid_credentials, s')
      ]

  -- logout
  unfoldable pub logout : Str → Users → Users
  logout token s = if is_empty token then s else delete_session token_hash token s

  -- auth_status, none if it raises
  unfoldable pub auth_status : Bool → Str → Str → ℕ → Users → Option Bool
  auth_status allow_insecure api_key token now s =
      if allow_insecure then some true else is_valid_token token_hash api_key token now s
