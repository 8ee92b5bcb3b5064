-- ===== src/Rag/Ollama.antt =====
-- src/local_graph_rag/rag/ollama_client.py: `post_with_retry`.
pub mod Retries
use local_graph_rag.Prelude.{
  ℕ, zero, suc, ◌+◌, Bool, true, false, ◌&&◌, List, [], ◌∷◌, leb, ltb, if◌then◌else◌,
}

-- What one POST does: a response with its status, `ReadTimeout`, or another `RequestException`.
pub data Reply : Type 0 where
  status : ℕ → Reply
  read_timeout : Reply
  request_failed : Reply

-- The response returned, or the reason of the `RuntimeError`.
pub data Result : Type 0 where
  returned : ℕ → Result
  http_error : ℕ → Result
  cancelled : Result
  timed_out : Result
  retries_spent : Result

-- A status of 500 and above, or no response, while attempts are left.
unfoldable pub is_retried : ℕ → ℕ → Reply → Bool
is_retried max_retries attempt (status code) = leb 500 code && ltb attempt max_retries
is_retried max_retries attempt read_timeout = false
is_retried max_retries attempt request_failed = true

-- `r.ok` is a status under 400.
unfoldable pub outcome : Reply → Result
outcome (status code) = if ltb code 400 then returned code else http_error code
outcome read_timeout = timed_out
outcome request_failed = retries_spent

-- The loop from number `attempt` on, `left` rounds of it; the number is that of the requests sent.
-- `replies` and `is_set` are what the service answers, and the cancel event, at each attempt.
unfoldable pub post_from : ℕ → (ℕ → Reply) → (ℕ → Bool) → ℕ → ℕ → Result × ℕ
unfolding is_retried outcome
post_from max_retries replies is_set zero attempt = (retries_spent, attempt)
post_from max_retries replies is_set (suc left) attempt =
    let retry = post_from max_retries replies is_set left (attempt + 1) in
    if is_set attempt
    then (cancelled, attempt)
    else if is_retried max_retries attempt (replies attempt)
    then retry
    else (outcome (replies attempt), attempt + 1)

unfoldable pub post_with_retry : ℕ → (ℕ → Reply) → (ℕ → Bool) → Result × ℕ
unfolding post_from
post_with_retry max_retries replies is_set =
    post_from max_retries replies is_set (max_retries + 1) 0
