-- ===== src/Ingest/Markdown/Overshoot.antt =====
-- When a piece of a Markdown section is longer than MAX_MD_CHUNK.
use local_graph_rag.Prelude.{
  ℕ, ◌+◌, ◌≤◌, ◌≡◌, refl, false, List, [], ◌∷◌, length, length-append, arith,
}
use local_graph_rag.Prelude.Text.{Str, codes, join}
use local_graph_rag.Settings.{Settings}
use local_graph_rag.Ingest.Markdown.{is_buf_full, after_flush, is_long, buffer, paragraphs_from}

module _ (cfg : Settings) (p q : Str) where
  not-long : (s : Str) → length s ≤ cfg.max_chunk_chars → is_long cfg s ≡ false
  unfolding is_long
  not-long s le = ground arith

  not-full :
      (buf : List Str) (b : Str) (n : ℕ) (s : Str)
      → n + (length s + 2) ≤ cfg.max_chunk_chars
      → is_buf_full cfg (b ∷ buf) n s ≡ false
  unfolding is_buf_full
  not-full buf b n s le = ground arith

  -- An empty paragraph that comes first in the buffer is not counted: after it, paragraphs that just
  -- fit by the code's count are joined to a piece that is 2 characters longer than MAX_MD_CHUNK.
  pub paragraphs-overshoot :
      length p + (length q + 2) ≡ cfg.max_chunk_chars
      → (paragraphs_from cfg [] 0 ([] ∷ p ∷ q ∷ []) ≡ join (codes "\n\n") ([] ∷ p ∷ q ∷ []) ∷ [])
        × (length (join (codes "\n\n") ([] ∷ p ∷ q ∷ [])) ≡ cfg.max_chunk_chars + 2)
  unfolding paragraphs_from after_flush buffer join
  paragraphs-overshoot exact = (
    rw
        (
          not-long [] (omega arith),
          not-full [] [] 0 p (omega arith),
          not-long p (omega arith),
          not-full (p ∷ []) [] (0 + (length p + 0)) q (omega arith),
          not-long q (omega arith),
        )
        refl,
    rw (length-append p (10 ∷ 10 ∷ q)) (omega arith),
  )
