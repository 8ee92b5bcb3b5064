-- ===== src/Rag/Embed.antt =====
-- src/local_graph_rag/rag/embed.py: texts to vectors, in batches; none is the exception.
pub mod Vectors
pub mod Returns
use local_graph_rag.Prelude.{
  ℕ, zero, suc, Bool, true, false, not, Option, none, some, List, [], ◌∷◌, ◌++◌, length, take, drop,
  is_empty, all, ltb, nat_eqb, if◌then◌else◌,
}
use local_graph_rag.Prelude.Text.{Str, strip}
use local_graph_rag.Graph.Tables.{◌>>=◌}

-- MAX_EMBED_CHARS and VECTOR_SIZE
pub record Sizes : Type 0 where
  pub max_embed_chars : ℕ
  pub vector_size : ℕ

-- _EMBED_BATCH_SIZE
abbrev pub embed_batch_size : ℕ
embed_batch_size = 64

-- _prepare_text
unfoldable pub prepare_text : Sizes → Str → Option Str
prepare_text sizes text =
    if is_empty (strip text)
    then none
    else if ltb sizes.max_embed_chars (length (strip text))
    then some (take sizes.max_embed_chars (strip text))
    else some (strip text)

unfoldable pub prepare_all : Sizes → List Str → Option (List Str)
unfolding prepare_text
prepare_all sizes [] = some []
prepare_all sizes (text ∷ texts) = do
  one ← prepare_text sizes text
  rest ← prepare_all sizes texts
  some (one ∷ rest)

-- The checks on the `embeddings` of one response.
unfoldable pub check_vectors :
    {V : Type 0} → Sizes → List Str → List (List V) → Option (List (List V))
check_vectors sizes batch vectors =
    if not (nat_eqb (length vectors) (length batch))
    then none
    else if all (λ v. nat_eqb (length v) sizes.vector_size) vectors
    then some vectors
    else none

-- The loop over the slices. `post` is the service: none for an exception, a body that is no JSON,
-- or one without `embeddings`. The fuel is the number of texts, which each slice shortens.
unfoldable pub embed_slices :
    {V : Type 0}
    → Sizes
    → (List Str → Option (List (List V)))
    → ℕ
    → List Str
    → Option (List (List V))
unfolding check_vectors
embed_slices sizes post zero prepared = some []
embed_slices sizes post (suc fuel) [] = some []
embed_slices sizes post (suc fuel) (text ∷ prepared) = do
  vectors ← post (take embed_batch_size (text ∷ prepared))
  checked ← check_vectors sizes (take embed_batch_size (text ∷ prepared)) vectors
  rest ← embed_slices sizes post fuel (drop embed_batch_size (text ∷ prepared))
  some (checked ++ rest)

unfoldable pub embed_batch :
    {V : Type 0} → Sizes → (List Str → Option (List (List V))) → List Str → Option (List (List V))
unfolding prepare_all embed_slices
embed_batch sizes post texts = do
  prepared ← prepare_all sizes texts
  embed_slices sizes post (length prepared) prepared
