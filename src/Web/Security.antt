-- ===== src/Web/Security.antt =====
-- src/local_graph_rag/web/security.py: what a request says of its client.
pub mod Clients
use local_graph_rag.Prelude.{
  ◌≡◌, refl, ℕ, Bool, true, false, not, ◌&&◌, Option, none, some, List, [], ◌∷◌, contains, nat_eq,
  nat_eqb, list_eq, ◌==◌, length, is_empty, if◌then◌else◌,
}
use local_graph_rag.Prelude.Text.{Str, codes, starts_with, strip}
use local_graph_rag.Web.Middleware.{Request}

-- The parts of a FastAPI request that are read here: a missing peer, header or cookie is `none`.
pub record Incoming : Type 0 where
  pub url_path : Str
  pub scheme : Str
  pub peer : Option Str
  pub forwarded_for : Option Str
  pub forwarded_proto : Option Str
  pub authorization : Option Str
  pub auth_cookie : Option Str

-- headers.get(name, default)
unfoldable pub get_or : Str → Option Str → Str
get_or default none = default
get_or default (some value) = value

-- s.split(",", 1)[0]
unfoldable pub before_comma : Str → Str
before_comma [] = []
before_comma (c ∷ cs) = if nat_eqb c 44 then [] else c ∷ before_comma cs

abbrev pub peer_of : Incoming → Str
peer_of r = get_or (codes "unknown") r.peer

-- The first address of X-Forwarded-For.
unfoldable pub first_forwarded : Incoming → Str
unfolding before_comma get_or
first_forwarded r = strip (before_comma (get_or [] r.forwarded_for))

-- `trusted` is TRUSTED_PROXY_IPS, and `is_ip` says that ipaddress.ip_address does not raise.
unfoldable pub resolve_client_ip : List Str → (Str → Bool) → Incoming → Str
unfolding first_forwarded
resolve_client_ip trusted is_ip r =
    if contains (peer_of r) trusted
    then if is_empty (first_forwarded r)
      then peer_of r
      else if is_ip (first_forwarded r)
      then first_forwarded r
      else peer_of r
    else peer_of r

-- s.removeprefix(prefix)
unfoldable pub remove_prefix : Str → Str → Str
remove_prefix [] s = s
remove_prefix (p ∷ ps) [] = []
remove_prefix (p ∷ ps) (c ∷ cs) =
    let rest = remove_prefix ps cs in if starts_with (p ∷ ps) (c ∷ cs) then rest else c ∷ cs

unfoldable pub extract_bearer_token : Incoming → Str
unfolding remove_prefix
extract_bearer_token r =
    let token = strip (remove_prefix (codes "Bearer ") (get_or [] r.authorization)) in
    if is_empty token then get_or [] r.auth_cookie else token

unfoldable pub is_secure_request : List Str → Incoming → Bool
unfolding before_comma get_or
is_secure_request trusted r =
    if r.scheme == codes "https"
    then true
    else if contains (get_or [] r.peer) trusted
    then strip (before_comma (get_or [] r.forwarded_proto)) == codes "https"
    else false

-- What `security_middleware` reads of a request.
abbrev pub read_request : List Str → (Str → Bool) → Incoming → Request
read_request trusted is_ip r = record {
  path = r.url_path;
  client_ip = resolve_client_ip trusted is_ip r;
  bearer = extract_bearer_token r;
}

abbrev bearer_request : Incoming
bearer_request = record {
  url_path = codes "/v1/models";
  scheme = codes "http";
  peer = some (codes "10.0.0.1");
  forwarded_for = some (codes " 1.2.3.4 , 5.6.7.8");
  forwarded_proto = some (codes "https");
  authorization = some (codes "Bearer k1");
  auth_cookie = some (codes "c");
}

token_test : extract_bearer_token bearer_request ≡ codes "k1"
unfolding extract_bearer_token strip starts_with get_or
token_test = refl

ip_test : resolve_client_ip (codes "10.0.0.1" ∷ []) (λ s. true) bearer_request ≡ codes "1.2.3.4"
unfolding resolve_client_ip strip
ip_test = refl
