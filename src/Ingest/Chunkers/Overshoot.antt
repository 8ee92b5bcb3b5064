-- ===== src/Ingest/Chunkers/Overshoot.antt =====
-- When a chunk of `_merge_splits` is longer than CHUNK_SIZE.
use local_graph_rag.Prelude.{
  ℕ, ◌+◌, ◌≤◌, ◌<◌, ◌≡◌, refl, true, false, [], ◌∷◌, ◌++◌, length, length-append, ltb, arith,
}
use local_graph_rag.Prelude.Text.{Str, join}
use local_graph_rag.Settings.{Settings}
use local_graph_rag.Ingest.Chunkers.{drop_overlap, is_full, make_room, merge_from, merge_splits}

module _ (cfg : Settings) (sep x y : Str) where
  second-full :
      cfg.chunk_size < length x + (length sep + length y)
      → is_full cfg (length sep) (0 + (length x + 0)) (x ∷ []) y ≡ true
  unfolding is_full
  second-full over = ground arith

  overlap-kept :
      length x ≤ cfg.chunk_overlap
      → drop_overlap cfg (length sep) (0 + (length x + 0)) (x ∷ []) ≡ (0 + (length x + 0), x ∷ [])
  unfolding drop_overlap
  overlap-kept short = rw (stays (length x) short, drop_overlap) refl
    where
      stays : (n : ℕ) → n ≤ cfg.chunk_overlap → ltb cfg.chunk_overlap (0 + (n + 0)) ≡ false
      stays n le = ground arith

  -- A part no longer than CHUNK_OVERLAP, before a part with which it does not fit into CHUNK_SIZE, is
  -- repeated in front of that part: the second chunk is then longer than CHUNK_SIZE.
  pub merge_splits-overshoots :
      length x ≤ cfg.chunk_overlap
      → cfg.chunk_size < length x + (length sep + length y)
      → (merge_splits cfg (x ∷ y ∷ []) sep ≡ x ∷ join sep (x ∷ y ∷ []) ∷ [])
        × (cfg.chunk_size < length (join sep (x ∷ y ∷ [])))
  unfolding merge_splits merge_from make_room join
  merge_splits-overshoots short over = (
    rw (second-full over, overlap-kept short) refl,
    rw (length-append x (sep ++ y), length-append sep y) over,
  )
