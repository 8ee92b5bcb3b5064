-- ===== src/Ingest/Markdown/Paragraphs.antt =====
-- The bound on the pieces of an oversized section.
use local_graph_rag.Prelude.{
  ℕ, ◌+◌, ◌≤◌, ◌<◌, ◌≡◌, ◌↔◌, refl, Bool, true, false, List, [], ◌∷◌, length, All, All-append,
  All-mono, is_empty, ltb, leb, max, arith, Bool-cases, inl, inr, if◌then◌else◌,
}
use local_graph_rag.Prelude.Text.{Str, codes, join, split_on}
use local_graph_rag.Settings.{Settings}
use local_graph_rag.Ingest.Chunkers.Windows.{length-join-snoc}
use local_graph_rag.Ingest.Chunkers.Recursion.{chunk_limit, chunk_text-IsBounded}
use local_graph_rag.Ingest.Markdown.{
  gap, is_buf_full, after_flush, is_long, buffer, paragraphs_from, split_oversized_section,
}

module _ (cfg : Settings) where
  -- The longest piece of a section: a buffer of paragraphs, or a chunk of an oversized paragraph.
  abbrev pub IsPiece : Str → Type 0
  IsPiece c = length c ≤ max cfg.max_chunk_chars (chunk_limit cfg)

  abbrev double_newline : Str
  double_newline = codes "\n\n"

  -- `buf_len` is the length of the joined buffer, and is 0 only for the empty one.
  record IsBuffer (w : ℕ × List Str) : Type 0 where
    measured : w.0 ≡ length (join double_newline w.1)
    positive : is_empty w.1 ≡ false → 0 < w.0
    small : w.0 ≤ cfg.max_chunk_chars

  after_flush-IsBuffer :
      (buf : List Str) (n : ℕ) (p : Str)
      → IsBuffer (n, buf)
      → IsBuffer (after_flush cfg buf n p)
        × ((after_flush cfg buf n p).0 + (length p + gap (after_flush cfg buf n p).1)
            ≤ max cfg.max_chunk_chars (length p))
  unfolding after_flush is_buf_full
  after_flush-IsBuffer [] n p b = (b, unfold join in omega (arith, b.measured))
  after_flush-IsBuffer (q ∷ qs) n p b =
      elim (Bool-cases (ltb cfg.max_chunk_chars (n + (length p + 2)))) [
        | inl full ↦ rw full (
          record {
            measured = unfold join in refl;
            positive = λ e. absurd (cc e);
            small = omega arith;
          },
          omega arith,
        )
        | inr fits ↦ rw fits (b, ground arith)
      ]

  buffer-IsBuffer :
      (w : ℕ × List Str) (p : Str)
      → IsBuffer w
      → 0 < length p
      → w.0 + (length p + gap w.1) ≤ cfg.max_chunk_chars
      → IsBuffer (buffer w p)
  unfolding buffer
  buffer-IsBuffer (n, []) p b h k = record {
    measured = let e : n ≡ 0 = unfold join in b.measured in unfold join in ground arith;
    positive = λ _. ground arith;
    small = let e : n ≡ 0 = unfold join in b.measured in ground arith;
  }
  buffer-IsBuffer (n, q ∷ qs) p b h k =
      let pos = b.positive refl in
      record {
        measured = ground (arith, length-join-snoc double_newline (q ∷ qs) p);
        positive = λ _. ground arith;
        small = ground arith;
      }

  is_long_iff : (p : Str) → (is_long cfg p ≡ true) ↔ (cfg.max_chunk_chars < length p)
  unfolding is_long
  is_long_iff p = ground arith

  buf-IsPiece :
      (buf : List Str) (n : ℕ) (b : Bool)
      → IsBuffer (n, buf)
      → All IsPiece (if b then join double_newline buf ∷ [] else [])
  buf-IsPiece buf n true v = (omega (arith, v.measured, v.small), tt)
  buf-IsPiece buf n false v = tt

  paragraphs_from-IsPiece :
      (paragraphs buf : List Str) (n : ℕ)
      → 0 < cfg.chunk_size
      → All (λ p. 0 < length p) paragraphs
      → IsBuffer (n, buf)
      → All IsPiece (paragraphs_from cfg buf n paragraphs)
  unfolding paragraphs_from
  paragraphs_from-IsPiece [] [] n h a b = tt
  paragraphs_from-IsPiece [] (q ∷ qs) n h a b = buf-IsPiece (q ∷ qs) n true b
  paragraphs_from-IsPiece (p ∷ ps) buf n h a b =
      let (kept, room) = after_flush-IsBuffer buf n p b in
      All-append IsPiece _ _ (buf-IsPiece buf n (is_buf_full cfg buf n p) b)
        (elim (Bool-cases (is_long cfg p)) [
          | inl long ↦
              rw (long, All)
                (All-append IsPiece _ _
                  (All-mono _ IsPiece (λ c (short : length c ≤ chunk_limit cfg). omega arith) _
                    (chunk_text-IsBounded cfg p h))
                  (paragraphs_from-IsPiece ps _ _ h a.1 kept))
          | inr short ↦
              let fits : length p ≤ cfg.max_chunk_chars = ground (arith, is_long_iff p) in
              rw (short, All)
                (paragraphs_from-IsPiece ps _ _ h a.1 (buffer-IsBuffer _ p kept a.0 (omega arith)))
        ])

  -- If no paragraph of a section is empty, each of its pieces is at most
  -- max(MAX_MD_CHUNK, CHUNK_SIZE + CHUNK_OVERLAP + 2) long.
  pub split_oversized-IsPiece :
      (section : Str)
      → 0 < cfg.chunk_size
      → All (λ p. 0 < length p) (split_on double_newline section)
      → All IsPiece (split_oversized_section cfg section)
  unfolding split_oversized_section
  split_oversized-IsPiece section h a =
      elim (Bool-cases (leb (length section) cfg.max_chunk_chars)) [
        | inl small ↦ rw (small, All) (ground arith, tt)
        | inr large ↦
            rw (large, All)
              (paragraphs_from-IsPiece (split_on double_newline section) [] 0 h a (record {
                measured = unfold join in refl;
                positive = λ e. absurd (cc e);
                small = omega arith;
              }))
      ]
