-- ===== src/Tests/Web.antt =====
-- The web layer on small inputs.
use local_graph_rag.Prelude.{
  ◌+◌, ◌≤◌, ◌≡◌, ◌≢◌, refl, ap, Bool, true, false, none, some, [], ◌∷◌, ◌++◌, nat_eq, list_eq, ◌==◌,
  contains, arith,
}
use local_graph_rag.Prelude.Text.{Str, codes, starts_with}
use local_graph_rag.Graph.Reads.{find}
use local_graph_rag.Web.RateLimit.{Limit, Buckets, check_rate_limit, sweep_expired}
use local_graph_rag.Web.RateLimit.Window.{
  Reaches, start, requested, swept, History, record_if, live_count, times_in, Reaches-within,
}
use local_graph_rag.Web.Users.{
  Users, upsert_user, delete_user, create_session, validate_session, is_valid_token, compare_digest,
}
use local_graph_rag.Web.Users.Sessions.{revoked-on_change, create-validate}
use local_graph_rag.Web.Middleware.{
  Policy, guarded, Request, Web, handled, security_middleware, is_admitted, is_static,
  is_session_path,
}
use local_graph_rag.Web.Middleware.Gate.{is_open, handled-admitted}
use local_graph_rag.Web.Security.{Incoming, get_or, peer_of, read_request}
use local_graph_rag.Web.Security.Clients.{unspoofed-verdict}

-- Two requests in ten ticks.
abbrev limit : Limit
limit = record { window = 10; max_requests = 2 }

abbrev ip : Str
ip = codes "1.2.3.4"

abbrev no_buckets : Buckets
no_buckets key = none

abbrev first : Bool × Buckets
first = check_rate_limit limit ip 3 no_buckets

abbrev history : History
history = record_if first.0 (ip, 3) []

after_sweep : Reaches limit 5 (sweep_expired limit 5 first.1) history
after_sweep = swept 5 (omega arith) (requested ip 3 (omega arith) start)

Reaches-within_example : live_count limit 7 (times_in ip history) ≤ 2
Reaches-within_example =
    Reaches-within limit 5 (sweep_expired limit 5 first.1) history ip 7 after_sweep (omega arith)

-- A digest, for these runs.
abbrev digest : Str → Str
digest s = codes "#" ++ s

abbrev ann : Str
ann = codes "ann"

abbrev accounts : Users
accounts = record {
  users = record { username = ann; password_hash = codes "p"; created_at = 0 } ∷ [];
  sessions = record { token = codes "#t"; username = ann; expires_at = 50 } ∷ [];
}

revoked-on_change_example :
    (validate_session digest (codes "t") 9 (upsert_user ann (codes "q") 8 accounts) ≢ some ann)
    × (validate_session digest (codes "t") 9 (delete_user ann accounts) ≢ some ann)
revoked-on_change_example = revoked-on_change digest ann (codes "q") (codes "t") 8 9 accounts

abbrev with_session : Users
with_session = record accounts {
  sessions =
      accounts.sessions ++ record { token = codes "#u"; username = ann; expires_at = 4 + 10 } ∷ [];
}

created : create_session digest (codes "u") ann 10 4 accounts ≡ some with_session
unfolding create_session
created = refl

digests_differ : digest (codes "u") ≢ digest (codes "t")
digests_differ e = cc (ap (λ s. s == digest (codes "t")) e)

create-validate_example :
    (validate_session digest (codes "u") 13 with_session ≡ some ann)
    × (validate_session digest (codes "t") 13 with_session
        ≡ validate_session digest (codes "t") 13 accounts)
create-validate_example =
    create-validate digest (codes "u") ann 10 4 13 (codes "t") accounts with_session created refl
      (omega arith) digests_differ

abbrev policy : Policy
policy = record {
  limit = limit;
  login_limit = limit;
  api_key = codes "key";
  allow_insecure = false;
}

abbrev chat : Request
chat = record { path = codes "/v1/chat/completions"; client_ip = ip; bearer = codes "t" }

abbrev web : Web
web = record { rate_buckets = no_buckets; login_rate_buckets = no_buckets; users = accounts }

chat-closed : is_open chat.path ≡ false
unfolding is_static is_session_path starts_with
chat-closed = refl

chat-handled : (security_middleware digest policy chat 5 web).0 ≡ handled
unfolding security_middleware guarded is_static is_session_path starts_with check_rate_limit
    is_valid_token compare_digest validate_session find
chat-handled = refl

handled-admitted_example :
    ((check_rate_limit policy.limit chat.client_ip 5 web.rate_buckets).0 ≡ true)
    × (is_admitted digest policy chat 5 web ≡ some true)
handled-admitted_example = handled-admitted digest policy chat 5 web chat-closed chat-handled

abbrev forwarded : Incoming
forwarded = record {
  url_path = codes "/v1/models";
  scheme = codes "http";
  peer = some (codes "10.0.0.1");
  forwarded_for = some (codes "1.2.3.4, 5.6.7.8");
  forwarded_proto = none;
  authorization = some (codes "Bearer k1");
  auth_cookie = none;
}

untrusted : contains (peer_of forwarded) (codes "10.0.0.2" ∷ []) ≡ false
unfolding get_or
untrusted = refl

unspoofed-verdict_example :
    security_middleware digest policy
      (read_request
        (codes "10.0.0.2" ∷ [])
        (starts_with (codes "1"))
        (record forwarded { forwarded_for = none }))
      5
      web
    ≡ security_middleware digest policy
        (read_request (codes "10.0.0.2" ∷ []) (starts_with (codes "1")) forwarded)
        5
        web
unspoofed-verdict_example =
    unspoofed-verdict (codes "10.0.0.2" ∷ []) (starts_with (codes "1")) forwarded none digest policy
      5 web untrusted
