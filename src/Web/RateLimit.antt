-- ===== src/Web/RateLimit.antt =====
-- src/local_graph_rag/web/rate_limit.py: the sliding-window limiter. The monotonic clock is read in
-- whole ticks, and a bucket is none where the dict has no key.
pub mod Window
use local_graph_rag.Prelude.{
  ℕ, ◌+◌, Bool, true, false, Option, none, some, List, [], ◌∷◌, ◌++◌, keep, any, length, ltb, leb,
  nat_eq, list_eq, ◌==◌, if◌then◌else◌,
}
use local_graph_rag.Prelude.Text.{Str}

abbrev pub Buckets : Type 0
Buckets = Str → Option (List ℕ)

-- RATE_WINDOW_SECONDS, and the `max_requests` of one limiter.
pub record Limit : Type 0 where
  pub window : ℕ
  pub max_requests : ℕ

-- now - t < RATE_WINDOW_SECONDS
abbrev pub is_live : Limit → ℕ → ℕ → Bool
is_live limit now t = ltb now (t + limit.window)

-- buckets.get(ip, [])
abbrev pub times_of : Option (List ℕ) → List ℕ
times_of none = []
times_of (some ts) = ts

abbrev pub put : Str → List ℕ → Buckets → Buckets
put ip ts buckets key = if key == ip then some ts else buckets key

unfoldable pub check_rate_limit : Limit → Str → ℕ → Buckets → Bool × Buckets
check_rate_limit limit ip now buckets =
    let active = keep (is_live limit now) (times_of (buckets ip)) in
    if leb limit.max_requests (length active)
    then (false, buckets)
    else (true, put ip (active ++ now ∷ []) buckets)

abbrev pub swept_bucket : Limit → ℕ → Option (List ℕ) → Option (List ℕ)
swept_bucket limit now none = none
swept_bucket limit now (some ts) = if any (is_live limit now) ts then some ts else none

-- One round of `_sweep_expired`.
pub sweep_expired : Limit → ℕ → Buckets → Buckets
sweep_expired limit now buckets key = swept_bucket limit now (buckets key)
