-- ===== src/Web/Middleware/Gate.antt =====
-- What stands between a request and its handler.
use local_graph_rag.Prelude.{
  ℕ, some, Option-cases, Bool, true, false, ◌||◌, ◌≡◌, refl, nat_eq, list_eq, ◌==◌, inl, inr, arith,
}
use local_graph_rag.Prelude.Text.{Str, codes}
use local_graph_rag.Web.RateLimit.{Buckets, check_rate_limit}
use local_graph_rag.Web.Middleware.{
  Policy, Request, Web, handled, is_static, is_session_path, is_admitted, guarded,
  security_middleware,
}

-- The paths that reach their handler without a token.
abbrev pub is_open : Str → Bool
is_open path = is_static path || (path == codes "/auth/login" || is_session_path path)

or_none : (a b : Bool) → (a || b) ≡ false → (a ≡ false) × (b ≡ false)
or_none a b e = ground arith

module _ (token_hash : Str → Str) (policy : Policy) (request : Request) (now : ℕ) (w : Web) where
  guarded-admits :
      (r : Bool × Buckets)
      → is_session_path request.path ≡ false
      → (guarded token_hash policy request now w r).0 ≡ handled
      → (r.0 ≡ true) × (is_admitted token_hash policy request now w ≡ some true)
  unfolding guarded
  guarded-admits (false, buckets) e h = absurd (cc h)
  guarded-admits (true, buckets) e h =
      elim (Option-cases (is_admitted token_hash policy request now w)) [
        | inr (true, a) ↦ (refl, a)
        | inr (false, a) ↦ absurd (cc (rw (e, a) at h))
        | inl a ↦ absurd (cc (rw (e, a) at h))
      ]

  -- A request for a path that is not open reaches its handler only if the limiter let it through and
  -- its token is valid or insecure access is allowed.
  pub handled-admitted :
      is_open request.path ≡ false
      → (security_middleware token_hash policy request now w).0 ≡ handled
      → ((check_rate_limit policy.limit request.client_ip now w.rate_buckets).0 ≡ true)
        × (is_admitted token_hash policy request now w ≡ some true)
  unfolding security_middleware
  handled-admitted closed h =
      let outside = or_none (is_static request.path) _ closed in
      let past = or_none (request.path == codes "/auth/login") _ outside.1 in
      guarded-admits (check_rate_limit policy.limit request.client_ip now w.rate_buckets) past.1
        (rw (outside.0, past.0) at h)
