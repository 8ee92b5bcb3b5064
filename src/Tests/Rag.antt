-- ===== src/Tests/Rag.antt =====
-- The retrieval side on small inputs.
use local_graph_rag.Prelude.{
  true, none, ℕ, zero, suc, ◌≤◌, ◌≡◌, refl, Bool, false, Option, some, List, [], ◌∷◌, map, length,
}
use local_graph_rag.Prelude.Text.{Str, codes, lower, strip, strip_of, drop_while, rstrip, is_space}
use local_graph_rag.Rag.Router.{to_global, route_query, heuristic, words_of, runs_from}
use local_graph_rag.Rag.Embed.{
  Sizes, prepare_text, prepare_all, check_vectors, embed_slices, embed_batch,
}
use local_graph_rag.Rag.Embed.Returns.{Answers}
use local_graph_rag.Prelude.{length-map, All, is_empty}
use local_graph_rag.Rag.Embed.Vectors.{AllSized}
use local_graph_rag.Rag.Ollama.{
  Reply, status, returned, is_retried, outcome, post_from, post_with_retry,
}
use local_graph_rag.Rag.Ollama.Retries.{Answered, post-answers}

abbrev sizes : Sizes
sizes = record { max_embed_chars = 4; vector_size = 2 }

abbrev service : List Str → Option (List (List ℕ))
service batch = some (map (λ text. length text ∷ 0 ∷ []) batch)

abbrev texts : List Str
texts = codes "ab" ∷ codes "abcdef" ∷ []

abbrev vectors : List (List ℕ)
vectors = (2 ∷ 0 ∷ []) ∷ (4 ∷ 0 ∷ []) ∷ []

embedded : embed_batch sizes service texts ≡ some vectors
unfolding embed_batch embed_slices prepare_all prepare_text check_vectors strip strip_of drop_while
    rstrip is_space
embedded = refl

-- The first request gets 503, the second a response.
abbrev replies : ℕ → Reply
replies zero = status 503
replies (suc n) = status 200

abbrev not_set : ℕ → Bool
not_set attempt = false

answered : (post_with_retry 2 replies not_set).0 ≡ returned 200
unfolding post_with_retry post_from is_retried outcome
answered = refl

post-answers_example : (last : ℕ) × ((last ≤ 2) × Answered replies 0 last 200)
post-answers_example = post-answers 2 replies not_set 200 answered

abbrev question : Str
question = codes "Overview please"

abbrev no_file : Str → Bool
no_file s = false

-- A model that does not answer.
abbrev silent : Str → Option Str
silent prompt = none

routed : route_query no_file silent question true ≡ to_global
unfolding route_query heuristic words_of runs_from lower
routed = refl

texts-answered : Answers sizes service
texts-answered batch = (_, (refl, lengths batch))
  where
    lengths :
        (batch : List Str)
        → (length (map (λ text. length text ∷ 0 ∷ []) batch) ≡ length batch)
          × AllSized sizes (map (λ text. length text ∷ 0 ∷ []) batch)
    lengths [] = (refl, tt)
    lengths (b ∷ bs) = (length-map (λ text. length text ∷ 0 ∷ []) (b ∷ bs), (refl, (lengths bs).1))

texts-not_blank : All (λ (t : Str). is_empty (strip t) ≡ false) texts
unfolding strip strip_of drop_while rstrip is_space
texts-not_blank = (refl, (refl, tt))
