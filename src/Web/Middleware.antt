-- ===== src/Web/Middleware.antt =====
-- src/local_graph_rag/web/middleware.py: `security_middleware`, which limits and authenticates.
pub mod Gate
use local_graph_rag.Prelude.{
  ℕ, Bool, true, false, not, ◌&&◌, ◌||◌, Option, none, some, List, [], ◌∷◌, nat_eq, list_eq, ◌==◌,
  if◌then◌else◌,
}
use local_graph_rag.Prelude.Text.{Str, codes, starts_with}
use local_graph_rag.Web.RateLimit.{Limit, Buckets, check_rate_limit}
use local_graph_rag.Web.Users.{Users, is_valid_token}

-- The settings that the middleware reads.
pub record Policy : Type 0 where
  pub limit : Limit
  pub login_limit : Limit
  pub api_key : Str
  pub allow_insecure : Bool

-- A request as the middleware sees it: its path, `resolve_client_ip` and `extract_bearer_token`.
pub record Request : Type 0 where
  pub path : Str
  pub client_ip : Str
  pub bearer : Str

pub record Web : Type 0 where
  pub rate_buckets : Buckets
  pub login_rate_buckets : Buckets
  pub users : Users

-- The handler is called, or the response is 429 or 401, or the middleware raises.
pub data Verdict : Type 0 where
  handled limited unauthorized middleware_raised : Verdict

-- Pages that are neither limited nor authenticated.
unfoldable pub is_static : Str → Bool
is_static path =
    path == codes "/favicon.ico"
    || (path == codes "/ui" || (starts_with (codes "/ui/") path || path == codes "/healthz"))

-- Paths past the limiter that need no token.
unfoldable pub is_session_path : Str → Bool
is_session_path path = path == codes "/auth/logout" || path == codes "/auth/status"

abbrev pub is_admitted : (Str → Str) → Policy → Request → ℕ → Web → Option Bool
is_admitted token_hash policy request now w =
    if policy.allow_insecure
    then some true
    else is_valid_token token_hash policy.api_key request.bearer now w.users

abbrev pub verdict_of : Option Bool → Verdict
verdict_of none = middleware_raised
verdict_of (some true) = handled
verdict_of (some false) = unauthorized

-- The part of `security_middleware` after the login path.
unfoldable pub guarded : (Str → Str) → Policy → Request → ℕ → Web → Bool × Buckets → Verdict × Web
guarded token_hash policy request now w (false, buckets) =
    (limited, record w { rate_buckets = buckets })
guarded token_hash policy request now w (true, buckets) = (
  if is_session_path request.path
      then handled
      else verdict_of (is_admitted token_hash policy request now w),
  record w { rate_buckets = buckets },
)

pub login_gate : Web → Bool × Buckets → Verdict × Web
login_gate w (allowed, buckets) =
    (if allowed then handled else limited, record w { login_rate_buckets = buckets })

unfoldable pub security_middleware : (Str → Str) → Policy → Request → ℕ → Web → Verdict × Web
unfolding guarded login_gate
security_middleware token_hash policy request now w =
    if is_static request.path
    then (handled, w)
    else if request.path == codes "/auth/login"
    then login_gate w
        (check_rate_limit policy.login_limit request.client_ip now w.login_rate_buckets)
    else guarded token_hash policy request now w
        (check_rate_limit policy.limit request.client_ip now w.rate_buckets)
