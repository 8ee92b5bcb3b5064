-- ===== src/Web/Users/Sessions.antt =====
-- Which tokens a store of sessions accepts, after each operation on it.
use local_graph_rag.Prelude.{
  ℕ, ◌+◌, ◌≤◌, ◌<◌, ◌≡◌, ◌≢◌, refl, sym, ap, ◌∙◌, Bool, true, false, not, ◌&&◌, Option, none, some,
  List, [], ◌∷◌, ◌++◌, keep, any, ltb, nat_eq, list_eq, ◌==◌, if◌then◌else◌, ==-self, eq_iff,
  Bool-cases, Option-cases, inl, inr, arith,
}
use local_graph_rag.Prelude.Text.{Str}
use local_graph_rag.Prelude.Members.{In-of_keep}
use local_graph_rag.Graph.Reads.{find}
use local_graph_rag.Graph.Reads.Lookup.{
  find-In, find-keep, find-dropped, find-append_skip, find-append_other, any-weaken,
}
use local_graph_rag.Web.Users.{
  User, Session, Users, has_user, without_sessions, upsert_user, delete_user, create_session,
  validate_session, delete_session, purge_expired_sessions,
}

-- The test of `validate_session` on a row.
abbrev is_match : Str → ℕ → List User → Session → Bool
is_match hash now users x = has_user x.username users && (x.token == hash && ltb now x.expires_at)

abbrev name_of : Option Session → Option Str
name_of none = none
name_of (some x) = some x.username

ltb_iff : (a b : ℕ) → a < b → ltb a b ≡ true
ltb_iff a b h = ground arith

and_right : (a b : Bool) → b ≡ false → (a && b) ≡ false
and_right true b h = h
and_right false b h = refl

and_token : (a b c : Bool) → (a && (b && c)) ≡ true → b ≡ true
and_token a b c h = ground arith

and_live : (a b c : Bool) → (a && (b && c)) ≡ true → c ≡ true
and_live a b c h = ground arith

and_all : (a b c : Bool) → a ≡ true → b ≡ true → c ≡ true → (a && (b && c)) ≡ true
and_all a b c ha hb hc = ground arith

module _ (token_hash : Str → Str) where
  -- No session of a user whose rows were dropped.
  find-without_sessions :
      (username token : Str) (now : ℕ) (users : List User) (sessions : List Session)
      → name_of (find (is_match (token_hash token) now users) (without_sessions username sessions))
        ≢ some username
  find-without_sessions username token now users sessions e =
      elim (Option-cases
        (find (is_match (token_hash token) now users) (without_sessions username sessions))) [
          | inl none_there ↦ cc (rw (none_there, name_of) at e)
          | inr (x, found) ↦
              let own : some x.username ≡ some username = rw (found, name_of) at e in
              let there = (find-In (is_match (token_hash token) now users) _ x found).0 in
              let kept =
                (In-of_keep (λ (s : Session). not (s.username == username)) sessions x there).1 in
              differs x (cc own) kept
        ]
    where
      differs : (x : Session) → x.username ≡ username → not (x.username == username) ≡ true → ⊥
      differs x own kept = cc (rw ((eq_iff x.username username).1 own) at kept)

  -- After a user's password is set, or the user is deleted, no token is accepted as theirs.
  pub revoked-on_change :
      (username password_hash token : Str) (now later : ℕ) (s : Users)
      → (validate_session token_hash token later (upsert_user username password_hash now s)
          ≢ some username)
        × (validate_session token_hash token later (delete_user username s) ≢ some username)
  unfolding validate_session upsert_user delete_user
  revoked-on_change username password_hash token now later s = (
    find-without_sessions username token later (upsert_user username password_hash now s).users
        s.sessions,
    find-without_sessions username token later (delete_user username s).users s.sessions,
  )

  -- The row of a new session.
  abbrev session_row : Str → Str → ℕ → ℕ → Session
  session_row token username expiry now = record {
    token = token_hash token;
    username = username;
    expires_at = now + expiry;
  }

  created-own :
      (token username : Str) (expiry now : ℕ) (s s' : Users)
      → create_session token_hash token username expiry now s ≡ some s'
      → (any (λ x. x.token == token_hash token) s.sessions ≡ false)
        × (s' ≡ record s { sessions = s.sessions ++ session_row token username expiry now ∷ [] })
  unfolding create_session
  created-own token username expiry now s s' created =
      elim (Bool-cases (any (λ (x : Session). x.token == token_hash token) s.sessions)) [
        | inl taken ↦ absurd (cc (rw (taken, create_session) at created))
        | inr fresh ↦ (fresh, some_inv (sym created ∙ rw (fresh, create_session) refl))
      ]
    where
      some_inv : {a b : Users} → some a ≡ some b → a ≡ b
      some_inv e = cc

  -- What the token of a new session is worth: the user's name, while they are there and until it
  -- expires.
  pub created-exact :
      (token username : Str) (expiry now later : ℕ) (s s' : Users)
      → create_session token_hash token username expiry now s ≡ some s'
      → validate_session token_hash token later s'
        ≡ (if has_user username s.users && ltb later (now + expiry) then some username else none)
  unfolding validate_session find
  created-exact token username expiry now later s s' created =
      let row = session_row token username expiry now in
      let (fresh, own) = created-own token username expiry now s s' created in
      let unmatched =
        any-weaken (is_match (token_hash token) later s.users) (λ x. x.token == token_hash token)
          s.sessions
          (λ x h. and_token (has_user x.username s.users) (x.token == token_hash token) _ h)
          fresh in
      rw own (
        ap name_of (
          find-append_skip (is_match (token_hash token) later s.users) s.sessions (row ∷ [])
            unmatched)
        ∙ rw (==-self (token_hash token))
            (alone row (has_user username s.users && ltb later (now + expiry))))
    where
      alone :
          (row : Session) (b : Bool)
          → name_of (if b then some row else none) ≡ (if b then some row.username else none)
      alone row true = refl
      alone row false = refl

  created-valid :
      (token username : Str) (expiry now later : ℕ) (s s' : Users)
      → create_session token_hash token username expiry now s ≡ some s'
      → has_user username s.users ≡ true
      → later < now + expiry
      → validate_session token_hash token later s' ≡ some username
  created-valid token username expiry now later s s' created known live =
      created-exact token username expiry now later s s' created
      ∙ rw (known, ltb_iff later (now + expiry) live) refl

  -- A session that was created for a user of the store is valid until it expires, and no token with
  -- another hash is accepted or refused differently than before.
  pub create-validate :
      (token username : Str) (expiry now later : ℕ) (other : Str) (s s' : Users)
      → create_session token_hash token username expiry now s ≡ some s'
      → has_user username s.users ≡ true
      → later < now + expiry
      → token_hash token ≢ token_hash other
      → (validate_session token_hash token later s' ≡ some username)
        × (validate_session token_hash other later s' ≡ validate_session token_hash other later s)
  unfolding validate_session find
  create-validate token username expiry now later other s s' created known live differ =
      let row = session_row token username expiry now in
      let (_, own) = created-own token username expiry now s s' created in
      (
        created-valid token username expiry now later s s' created known live,
        rw own (
            ap name_of (
              find-append_other (is_match (token_hash other) later s.users) s.sessions row
                (unlike row refl))),
      )
    where
      unlike :
          (row : Session)
          → row.token ≡ token_hash token
          → is_match (token_hash other) later s.users row ≡ false
      unlike row own = elim (Bool-cases (row.token == token_hash other)) [
        | inl e ↦ absurd (differ (sym own ∙ (eq_iff row.token (token_hash other)).0 e))
        | inr e ↦ rw e (and_right (has_user row.username s.users) false refl)
      ]

  -- A session that was deleted is not valid, and no token with another hash is accepted or refused
  -- differently than before.
  pub delete-validate :
      (token other : Str) (now : ℕ) (s : Users)
      → token_hash token ≢ token_hash other
      → (validate_session token_hash token now (delete_session token_hash token s) ≡ none)
        × (validate_session token_hash other now (delete_session token_hash token s)
            ≡ validate_session token_hash other now s)
  unfolding delete_session validate_session
  delete-validate token other now s differ = (ap name_of gone, ap name_of kept)
    where
      gone :
          find
            (is_match (token_hash token) now s.users)
            (keep (λ x. not (x.token == token_hash token)) s.sessions)
          ≡ none
      gone = find-dropped _ _ s.sessions (λ x h.
          ap not (and_token (has_user x.username s.users) (x.token == token_hash token) _ h))

      kept :
          find
            (is_match (token_hash other) now s.users)
            (keep (λ x. not (x.token == token_hash token)) s.sessions)
          ≡ find (is_match (token_hash other) now s.users) s.sessions
      kept = find-keep _ _ s.sessions (λ x h. elim (Bool-cases (x.token == token_hash token)) [
        | inr e ↦ ap not e
        | inl e ↦ absurd (
            differ (
              sym ((eq_iff x.token _).0 e)
              ∙ (eq_iff x.token _).0
                  (and_token (has_user x.username s.users) (x.token == token_hash other) _ h)))
      ])

  -- A purge at one moment changes the answer for no token at that moment or later.
  pub purge-validate :
      (token : Str) (now later : ℕ) (s : Users)
      → now ≤ later
      → validate_session token_hash token later (purge_expired_sessions now s)
        ≡ validate_session token_hash token later s
  unfolding purge_expired_sessions validate_session
  purge-validate token now later s le = ap name_of (
      find-keep (is_match (token_hash token) later s.users) (λ (x : Session). ltb now x.expires_at)
        s.sessions still)
    where
      earlier : (x : ℕ) → ltb later x ≡ true → ltb now x ≡ true
      earlier x h = ground arith

      still :
          (x : Session)
          → is_match (token_hash token) later s.users x ≡ true
          → ltb now x.expires_at ≡ true
      still x h =
          earlier x.expires_at
            (and_live (has_user x.username s.users) (x.token == token_hash token) _ h)
