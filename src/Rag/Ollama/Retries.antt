-- ===== src/Rag/Ollama/Retries.antt =====
-- How often `post_with_retry` asks, and what it may return.
use mathlib.Core.Path.{subst}
use local_graph_rag.Prelude.{
  ℕ, zero, suc, ◌+◌, ◌≤◌, ◌<◌, ◌≡◌, refl, Bool, true, leb, ltb, arith, Bool-cases, inl, inr, ◌⊎◌,
}
use local_graph_rag.Rag.Ollama.{
  Reply, status, read_timeout, request_failed, returned, is_retried, outcome, post_from,
  post_with_retry,
}

-- A reply after which another request may be sent.
abbrev pub IsRetriable : Reply → Type 0
IsRetriable (status code) = 500 ≤ code
IsRetriable read_timeout = ⊥
IsRetriable request_failed = Unit

-- The request `last` answered with the returned status, and all before it were retriable.
pub record Answered (replies : ℕ → Reply) (first last code : ℕ) : Type 0 where
  pub of_last : replies last ≡ status code
  pub is_ok : code < 400
  pub of_earlier : (i : ℕ) → first ≤ i → i < last → IsRetriable (replies i)

first-or_later : (a i : ℕ) → a ≤ i → (a ≡ i) ⊎ (a + 1 ≤ i)
first-or_later a i le = elim (Bool-cases (leb i a)) [
  | inl e ↦ inl (ground arith)
  | inr e ↦ inr (ground arith)
]

module _ (max_retries : ℕ) (replies : ℕ → Reply) (is_set : ℕ → Bool) where
  retried-IsRetriable :
      (attempt : ℕ) (r : Reply) → is_retried max_retries attempt r ≡ true → IsRetriable r
  unfolding is_retried
  retried-IsRetriable attempt (status code) h = ground arith
  retried-IsRetriable attempt read_timeout h = absurd (cc h)
  retried-IsRetriable attempt request_failed h = tt

  outcome-returned :
      (r : Reply) (code : ℕ) → outcome r ≡ returned code → (r ≡ status code) × (code < 400)
  unfolding outcome
  outcome-returned (status c) code h = elim (Bool-cases (ltb c 400)) [
    | inl e ↦ let same : c ≡ code = cc (rw (e, outcome) at h) in (rw same refl, ground arith)
    | inr e ↦ absurd (cc (rw (e, outcome) at h))
  ]
  outcome-returned read_timeout code h = absurd (cc h)
  outcome-returned request_failed code h = absurd (cc h)

  -- Sent from `first` on, the requests and the answer.
  post_from-answers :
      (left attempt code : ℕ)
      → (post_from max_retries replies is_set left attempt).0 ≡ returned code
      → (last : ℕ) × ((attempt ≤ last)
          × ((last < attempt + left) × Answered replies attempt last code))
  unfolding post_from
  post_from-answers zero attempt code h = absurd (cc h)
  post_from-answers (suc left) attempt code h = elim (Bool-cases (is_set attempt)) [
    | inl e ↦ absurd (cc (rw e at h))
    | inr e ↦ elim (Bool-cases (is_retried max_retries attempt (replies attempt))) [
      | inl e' ↦
          let (last, (from, (to, a))) =
            post_from-answers left (attempt + 1) code (rw (e, e') at h) in
          (
            last,
            (
              omega arith,
              (
                omega arith,
                record {
                  of_last = a.of_last;
                  is_ok = a.is_ok;
                  of_earlier = λ i lo hi. elim (first-or_later attempt i lo) [
                    | inl here ↦
                        subst (λ k. IsRetriable (replies k)) here
                          (retried-IsRetriable attempt (replies attempt) e')
                    | inr there ↦ a.of_earlier i there hi
                  ];
                },
              ),
            ),
          )
      | inr e' ↦
          let (own, ok_) = outcome-returned (replies attempt) code (rw (e, e') at h) in
          (
            attempt,
            (
              omega arith,
              (
                omega arith,
                record { of_last = own; is_ok = ok_; of_earlier = λ i lo hi. absurd (omega arith) },
              ),
            ),
          )
    ]
  ]

  post_from-sends :
      (left attempt : ℕ) → (post_from max_retries replies is_set left attempt).1 ≤ attempt + left
  unfolding post_from
  post_from-sends zero attempt = omega arith
  post_from-sends (suc left) attempt = elim (Bool-cases (is_set attempt)) [
    | inl e ↦ rw e (omega arith)
    | inr e ↦ elim (Bool-cases (is_retried max_retries attempt (replies attempt))) [
      | inl e' ↦ rw (e, e') (let rest = post_from-sends left (attempt + 1) in omega arith)
      | inr e' ↦ rw (e, e') (omega arith)
    ]
  ]

  -- At most max_retries + 1 requests are sent, whatever they answer.
  pub post-sends : (post_with_retry max_retries replies is_set).1 ≤ max_retries + 1
  unfolding post_with_retry
  post-sends = let n = post_from-sends (max_retries + 1) 0 in omega arith

  -- A response that is returned answered a request among the first max_retries + 1 with a status
  -- under 400, and each request before it got a status of 500 or more or no response at all: none of
  -- them timed out while it was read.
  pub post-answers :
      (code : ℕ)
      → (post_with_retry max_retries replies is_set).0 ≡ returned code
      → (last : ℕ) × ((last ≤ max_retries) × Answered replies 0 last code)
  unfolding post_with_retry
  post-answers code h =
      let (last, (_, (to, a))) = post_from-answers (max_retries + 1) 0 code h in
      (last, (omega arith, a))
