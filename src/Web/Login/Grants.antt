-- ===== src/Web/Login/Grants.antt =====
-- Who is let in by a login, and for how long.
use local_graph_rag.Prelude.{
  keep, ltb, not, ◌&&◌, is_empty, ℕ, ◌+◌, ◌<◌, ◌≡◌, refl, sym, ap, ◌∙◌, inl, inr, Bool, true, false,
  Bool-cases, Option, none, some, Option-cases, List, [], ◌∷◌, any, map, nat_eq, list_eq, ◌==◌,
  if◌then◌else◌, arith,
}
use local_graph_rag.Prelude.Text.{Str}
use local_graph_rag.Graph.Reads.{find}
use local_graph_rag.Web.Users.{
  User, Session, Users, has_user, password_hash_of, upsert_user, create_session, validate_session,
}
use local_graph_rag.Web.Users.Sessions.{created-exact}
use local_graph_rag.Web.Login.{
  Credentials, LoginReply, granted, invalid_credentials, matches, open_session, login,
  password_fits_bcrypt,
}

any-kept :
    (p keeps : Session → Bool) (xs : List Session)
    → any p xs ≡ false
    → any p (keep keeps xs) ≡ false
any-kept p keeps [] h = refl
any-kept p keeps (x ∷ xs) h = elim (Bool-cases (keeps x)) [
  | inl k ↦ rw k (let rest = any-kept p keeps xs (ground arith) in ground arith)
  | inr k ↦ rw k (any-kept p keeps xs (ground arith))
]

find-any : (p : User → Bool) (us : List User) (u : User) → find p us ≡ some u → any p us ≡ true
unfolding find
find-any p [] u h = absurd (cc h)
find-any p (v ∷ us) u h = elim (Bool-cases (p v)) [
  | inl here ↦ rw here refl
  | inr there ↦ rw there (find-any p us u (rw (there, find) at h))
]

known :
    (username : Str) (s : Users) (stored : Str)
    → password_hash_of username s ≡ some stored
    → has_user username s.users ≡ true
unfolding password_hash_of
known username s stored h =
    elim (Option-cases (find (λ (u : User). u.username == username) s.users)) [
      | inl e ↦ absurd (cc (rw (e, password_hash_of) at h))
      | inr (u, e) ↦ find-any (λ (u : User). u.username == username) s.users u e
    ]

matched :
    (checkpw : Str → Str → Bool) (password : Str) (o : Option Str)
    → matches checkpw password o ≡ true
    → (stored : Str) × ((o ≡ some stored) × (checkpw password stored ≡ true))
unfolding matches
matched checkpw password none h = absurd (cc h)
matched checkpw password (some stored) h = (stored, (refl, ground arith))

module _ (token_hash : Str → Str) (checkpw : Str → Str → Bool) where
  -- A login that is granted is one whose password matched, and whose session was created.
  to_session :
      (token : Str) (expiry now : ℕ) (c : Credentials) (s s' : Users) (t : Str)
      → (login token_hash checkpw token expiry now c s s').0 ≡ granted t
      → (matches checkpw c.password (password_hash_of c.username s) ≡ true)
        × (login token_hash checkpw token expiry now c s s'
            ≡ open_session token_hash token c.username expiry now s')
  unfolding login
  to_session token expiry now c s s' t h = elim (Option-cases (password_fits_bcrypt c.password)) [
    | inl e ↦ absurd (cc (rw (e, login) at h))
    | inr (true, e) ↦
        elim (Bool-cases (matches checkpw c.password (password_hash_of c.username s))) [
          | inl own ↦ (own, rw (e, login, own) refl)
          | inr other ↦ absurd (cc (rw (e, other, login) at h))
        ]
    | inr (false, e) ↦ absurd (cc (rw (e, login) at h))
  ]

  opened :
      (token username : Str) (expiry now : ℕ) (s : Users) (t : Str)
      → (open_session token_hash token username expiry now s).0 ≡ granted t
      → (t ≡ token)
        × (create_session token_hash token username expiry now s
            ≡ some (open_session token_hash token username expiry now s).1)
  unfolding open_session
  opened token username expiry now s t h =
      elim (Option-cases (create_session token_hash token username expiry now s)) [
        | inl e ↦ absurd (cc (rw (e, open_session) at h))
        | inr (s', e) ↦
            let same : token ≡ t = cc (rw (e, open_session) at h) in
            (sym same, e ∙ rw (e, open_session) refl)
      ]

  -- A login is granted only with the token that was drawn, and only if the password matches the hash
  -- that is stored for the user. That token is then valid as theirs at a time exactly if the user is
  -- still there when the session is created, and the session has not expired; else as nobody's.
  pub login-granted :
      (token : Str) (expiry now later : ℕ) (c : Credentials) (s s' : Users) (t : Str)
      → (login token_hash checkpw token expiry now c s s').0 ≡ granted t
      → (t ≡ token)
        × (((stored : Str) × ((password_hash_of c.username s ≡ some stored)
                × (checkpw c.password stored ≡ true)))
            × (validate_session token_hash t later
                  (login token_hash checkpw token expiry now c s s').1
                ≡ (if has_user c.username s'.users && ltb later (now + expiry)
                    then some c.username
                    else none)))
  login-granted token expiry now later c s s' t h =
      let (own, e) = to_session token expiry now c s s' t h in
      let (same, created) =
        opened token c.username expiry now s' t
          (sym (ap (λ (r : LoginReply × Users). r.0) e) ∙ h) in
      (
        same,
        (
          matched checkpw c.password (password_hash_of c.username s) own,
          rw (same, e)
              (created-exact token_hash token c.username expiry now later s'
                (open_session token_hash token c.username expiry now s').1 created),
        ),
      )

  still_there :
      (username password_hash : Str) (now : ℕ) (s : Users)
      → has_user username s.users ≡ true
      → has_user username (upsert_user username password_hash now s).users ≡ true
  unfolding upsert_user
  still_there username password_hash now s h = rw h (any-changed s.users h)
    where
      any-changed :
          (us : List User)
          → has_user username us ≡ true
          → has_user username (
              map
                (λ (u : User).
                  if u.username == username then record u { password_hash = password_hash } else u)
                us)
            ≡ true
      any-changed [] h = h
      any-changed (u ∷ us) h = elim (Bool-cases (u.username == username)) [
        | inl own ↦ rw (own, own) refl
        | inr other ↦ rw (other, other) (any-changed us (rw other at h))
      ]

  -- Setting a password keeps the token of a new session new.
  still_fresh :
      (token username password_hash : Str) (now : ℕ) (s : Users)
      → any (λ (x : Session). x.token == token_hash token) s.sessions ≡ false
      → any
          (λ (x : Session). x.token == token_hash token)
          (upsert_user username password_hash now s).sessions
        ≡ false
  unfolding upsert_user
  still_fresh token username password_hash now s fresh =
      any-kept (λ (x : Session). x.token == token_hash token)
        (λ (x : Session). not (x.username == username)) s.sessions fresh

  -- The hash that was set is the one that is stored.
  stored_now :
      (username password_hash : Str) (now : ℕ) (s : Users)
      → has_user username s.users ≡ true
      → password_hash_of username (upsert_user username password_hash now s) ≡ some password_hash
  unfolding password_hash_of upsert_user find
  stored_now username password_hash now s h = rw h (changed s.users h)
    where
      changed :
          (us : List User)
          → has_user username us ≡ true
          → (elim (find
              (λ (u : User). u.username == username)
              (map
                (λ (u : User).
                  if u.username == username then record u { password_hash = password_hash } else u)
                us)) [ none ↦ none | some u ↦ some u.password_hash ])
            ≡ some password_hash
      changed [] h = absurd (cc h)
      changed (u ∷ us) h = elim (Bool-cases (u.username == username)) [
        | inl own ↦ rw (own, own) refl
        | inr other ↦ rw (other, other) (changed us (rw other at h))
      ]

  login-reply :
      (token : Str) (expiry now : ℕ) (c : Credentials) (s s' : Users)
      → password_fits_bcrypt c.password ≡ some true
      → login token_hash checkpw token expiry now c s s' ≡ (
          if matches checkpw c.password (password_hash_of c.username s)
          then open_session token_hash token c.username expiry now s'
          else (invalid_credentials, s'))
  unfolding login
  login-reply token expiry now c s s' fits = rw (fits, login) refl

  -- Let a password fit bcrypt and match the user's stored hash, which is not empty, but not the hash
  -- that is then set for them, and let no session hold the hash of the token that is drawn. A login with
  -- it whose look-up of the hash came before that change and whose session is created after it is
  -- granted, and its token is valid until it expires, although setting a password deletes the
  -- sessions of the user. A login with the same password that begins after the change is refused.
  pub login-overtaken :
      (token : Str) (expiry now later : ℕ) (c : Credentials) (s : Users) (stored new_hash : Str)
      (changed : ℕ)
      → password_fits_bcrypt c.password ≡ some true
      → password_hash_of c.username s ≡ some stored
      → is_empty stored ≡ false
      → checkpw c.password stored ≡ true
      → checkpw c.password new_hash ≡ false
      → any (λ (x : Session). x.token == token_hash token) s.sessions ≡ false
      → later < now + expiry
      → ((login token_hash checkpw token expiry now c s
            (upsert_user c.username new_hash changed s)).0
          ≡ granted token)
        × ((validate_session token_hash token later
                (login token_hash checkpw token expiry now c s
                  (upsert_user c.username new_hash changed s)).1
              ≡ some c.username)
            × ((login token_hash checkpw token expiry now c
                  (upsert_user c.username new_hash changed s)
                  (upsert_user c.username new_hash changed s)).0
                ≡ invalid_credentials))
  unfolding matches open_session create_session
  login-overtaken token expiry now later c s stored new_hash changed fits of_user filled fit unfit
        fresh live =
      let s' : Users = upsert_user c.username new_hash changed s in
      let own : matches checkpw c.password (password_hash_of c.username s) ≡ true =
        rw (of_user, matches, filled, fit) refl in
      let there = known c.username s stored of_user in
      let fresh' = still_fresh token c.username new_hash changed s fresh in
      let replied : login token_hash checkpw token expiry now c s s'
          ≡ open_session token_hash token c.username expiry now s' =
        login-reply token expiry now c s s' fits ∙ rw own refl in
      let opens : (open_session token_hash token c.username expiry now s').0 ≡ granted token =
        rw (fresh', open_session, create_session) refl in
      let grants = ap (λ (r : LoginReply × Users). r.0) replied ∙ opens in
      let valid = (login-granted token expiry now later c s s' token grants).1.1 in
      let refuses : matches checkpw c.password (password_hash_of c.username s') ≡ false =
        rw (stored_now c.username new_hash changed s there, matches, unfit) (ground arith) in
      let refused : login token_hash checkpw token expiry now c s' s' ≡ (invalid_credentials, s') =
        login-reply token expiry now c s' s' fits ∙ rw refuses refl in
      let in_time : ltb later (now + expiry) ≡ true = ground arith in
      (
        grants,
        (
          valid ∙ rw (still_there c.username new_hash changed s there, in_time) refl,
          ap (λ (r : LoginReply × Users). r.0) refused,
        ),
      )
