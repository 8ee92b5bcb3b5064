-- ===== src/Settings.antt =====
-- The values of src/local_graph_rag/settings.py that the modelled code reads.
use local_graph_rag.Prelude.{ℕ}

pub record Settings : Type 0 where
  pub chunk_size : ℕ
  pub chunk_overlap : ℕ
  pub max_chunk_chars : ℕ
  pub extract_batch_tokens : ℕ
