-- ===== src/Web/Users.antt =====
-- src/local_graph_rag/web/user_store.py and web/auth.py: accounts, sessions and the token check. The
-- clock is read in whole ticks; sha256 and the fresh token are parameters.
pub mod Sessions
use local_graph_rag.Prelude.{
  ℕ, ◌+◌, Bool, true, false, not, ◌&&◌, ◌||◌, Option, none, some, List, [], ◌∷◌, ◌++◌, map, keep,
  any, all, ltb, nat_eq, list_eq, ◌==◌, is_some, is_empty, if◌then◌else◌,
}
use local_graph_rag.Prelude.Text.{Str}
use local_graph_rag.Graph.Derived.{str_ltb}
use local_graph_rag.Graph.Reads.{find, sort_by}

pub record User : Type 0 where
  pub username : Str
  pub password_hash : Str
  pub created_at : ℕ

pub record Session : Type 0 where
  pub token : Str
  pub username : Str
  pub expires_at : ℕ

pub record Users : Type 0 where
  pub users : List User
  pub sessions : List Session

abbrev pub has_user : Str → List User → Bool
has_user username users = any (λ u. u.username == username) users

-- get_hash
unfoldable pub password_hash_of : Str → Users → Option Str
unfolding find
password_hash_of username s = elim (find (λ u. u.username == username) s.users) [
  | none ↦ none
  | some u ↦ some u.password_hash
]

abbrev pub without_sessions : Str → List Session → List Session
without_sessions username sessions = keep (λ s. not (s.username == username)) sessions

-- upsert_user, at time `now`
unfoldable pub upsert_user : Str → Str → ℕ → Users → Users
upsert_user username password_hash now s = record {
  users =
      if has_user username s.users
      then map
          (λ u. if u.username == username then record u { password_hash = password_hash } else u)
          s.users
      else s.users
        ++ record { username = username; password_hash = password_hash; created_at = now } ∷ [];
  sessions = without_sessions username s.sessions;
}

unfoldable pub delete_user : Str → Users → Users
delete_user username s = record {
  users = keep (λ u. not (u.username == username)) s.users;
  sessions = without_sessions username s.sessions;
}

unfoldable pub list_users : Users → List Str
unfolding sort_by str_ltb
list_users s = sort_by (λ a b. not (str_ltb b a)) (map (λ u. u.username) s.users)

-- hmac.compare_digest of two texts: TypeError if one of them is not ASCII.
unfoldable pub compare_digest : Str → Str → Option Bool
compare_digest a b = if all (λ c. ltb c 128) (a ++ b) then some (a == b) else none

module _ (token_hash : Str → Str) where
  -- create_session of user_store, with the token it draws; the primary key raises on a repeat.
  unfoldable pub create_session : Str → Str → ℕ → ℕ → Users → Option Users
  create_session token username expiry_seconds now s =
      if any (λ x. x.token == token_hash token) s.sessions
      then none
      else some (record s {
        sessions =
            s.sessions
            ++ record {
              token = token_hash token;
              username = username;
              expires_at = now + expiry_seconds;
            }
              ∷ [];
      })

  -- validate_session, the join with `users` as a test
  unfoldable pub validate_session : Str → ℕ → Users → Option Str
  unfolding find
  validate_session token now s =
      elim (find
        (λ x. has_user x.username s.users && (x.token == token_hash token && ltb now x.expires_at))
        s.sessions) [ none ↦ none | some x ↦ some x.username ]

  unfoldable pub delete_session : Str → Users → Users
  delete_session token s = record s {
    sessions = keep (λ x. not (x.token == token_hash token)) s.sessions;
  }

  -- is_valid_token of auth.py, none if it raises; an empty API_KEY is off
  unfoldable pub is_valid_token : Str → Str → ℕ → Users → Option Bool
  unfolding validate_session compare_digest
  is_valid_token api_key token now s =
      let in_session = some (is_some (validate_session token now s)) in
      if is_empty token
      then some false
      else if is_empty api_key
      then in_session
      else elim (compare_digest token api_key) [
        | none ↦ none
        | some true ↦ some true
        | some false ↦ in_session
      ]

pub purge_expired_sessions : ℕ → Users → Users
purge_expired_sessions now s = record s { sessions = keep (λ x. ltb now x.expires_at) s.sessions }
