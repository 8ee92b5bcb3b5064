-- ===== src/Ingest/Chunkers/Recursion.antt =====
-- The bound on the chunks of `chunk_text`, through the recursion over the separators.
use local_graph_rag.Prelude.{
  ℕ, ◌+◌, ◌≤◌, ◌<◌, ◌≡◌, refl, sym, ◌||◌, List, [], ◌∷◌, ◌++◌, length, All, All-append, All-mono,
  is_empty, map, ltb, arith, Bool-cases, inl, inr,
}
use mathlib.Core.Path.{subst}
use local_graph_rag.Prelude.Text.{Str, occurs, strip}
use local_graph_rag.Settings.{Settings}
use local_graph_rag.Ingest.Chunkers.{
  flush, assemble, parts_of, recursive_split, separators, chunk_text,
}
use local_graph_rag.Ingest.Chunkers.Windows.{merge_splits-Short}

module _ (cfg : Settings) where
  -- The separators are at most two code points long.
  abbrev pub chunk_limit : ℕ
  chunk_limit = cfg.chunk_size + cfg.chunk_overlap + 2

  abbrev IsBounded : Str → Type 0
  IsBounded c = length c ≤ chunk_limit

  abbrev IsSmall : Str → Type 0
  IsSmall part = length part ≤ cfg.chunk_size

  All-IsSmall-snoc :
      (ps : List Str) (p : Str) → All IsSmall ps → IsSmall p → All IsSmall (ps ++ p ∷ [])
  All-IsSmall-snoc ps p h k = All-append IsSmall ps (p ∷ []) h (k, tt)

  flush-IsBounded :
      (sep : Str) (good : List Str)
      → length sep ≤ 2
      → All IsSmall good
      → All IsBounded (flush cfg sep good)
  unfolding flush
  flush-IsBounded sep [] k h = tt
  flush-IsBounded sep (p ∷ ps) k h =
      All-mono _ IsBounded
        (λ c (short : length c ≤ cfg.chunk_size + cfg.chunk_overlap + length sep). omega arith) _
        (merge_splits-Short cfg sep (p ∷ ps) h)

  -- A part that is too long goes to `split_long`: it is enough that this is bounded there.
  assemble-IsBounded :
      (sep : Str) (split_long : Str → List Str) (good parts : List Str)
      → length sep ≤ 2
      → All IsSmall good
      → All (λ part. cfg.chunk_size < length part → All IsBounded (split_long part)) parts
      → All IsBounded (assemble cfg sep split_long good parts)
  unfolding assemble
  assemble-IsBounded sep f good [] k h r = flush-IsBounded sep good k h
  assemble-IsBounded sep f good (part ∷ parts) k h r =
      elim (Bool-cases (ltb cfg.chunk_size (length part))) [
        | inl long ↦
            rw (long, All)
              (All-append IsBounded _ _ (flush-IsBounded sep good k h) (
                All-append IsBounded _ _ (r.0 (ground arith))
                  (assemble-IsBounded sep f [] parts k tt r.1)))
        | inr small ↦
            rw (small, All)
              (assemble-IsBounded sep f (good ++ part ∷ []) parts k
                (All-IsSmall-snoc good part h (ground arith)) r.1)
      ]

  All-of_All : {P : Str → Type 0} → ((s : Str) → P s) → (ps : List Str) → All P ps
  All-of_All f [] = tt
  All-of_All f (p ∷ ps) = (f p, All-of_All f ps)

  singles-not-long :
      (f : Str → List Str) (text : Str)
      → 0 < cfg.chunk_size
      → All (λ part. cfg.chunk_size < length part → All IsBounded (f part)) (map (λ c. c ∷ []) text)
  singles-not-long f [] h = tt
  singles-not-long f (c ∷ cs) h = (λ k. absurd (omega arith), singles-not-long f cs h)

  -- The separators end in the empty one, and none is longer than two.
  abbrev EndsInEmpty : List Str → Type 0
  EndsInEmpty [] = ⊥
  EndsInEmpty (s ∷ []) = s ≡ []
  EndsInEmpty (s ∷ t ∷ ss) = (length s ≤ 2) × EndsInEmpty (t ∷ ss)

  last_separator :
      (last text : Str)
      → 0 < cfg.chunk_size
      → All IsBounded (recursive_split cfg last ([] ∷ []) text)
  unfolding recursive_split parts_of
  last_separator last text h =
      assemble-IsBounded [] (λ part. part ∷ []) [] (map (λ c. c ∷ []) text) (omega arith) tt
        (singles-not-long (λ part. part ∷ []) text h)

  recursive_split-IsBounded :
      (last : Str) (seps : List Str) (text : Str)
      → 0 < cfg.chunk_size
      → EndsInEmpty seps
      → All IsBounded (recursive_split cfg last seps text)
  unfolding recursive_split
  recursive_split-IsBounded last [] text h e = absurd e
  recursive_split-IsBounded last (s ∷ []) text h e =
      subst (λ s. All IsBounded (recursive_split cfg last (s ∷ []) text)) (sym e)
        (last_separator last text h)
  recursive_split-IsBounded last (s ∷ t ∷ ss) text h e =
      elim (Bool-cases (is_empty s || occurs s text)) [
        | inl here ↦
            rw (here, All)
              (assemble-IsBounded s _ [] (parts_of s text) e.0 tt
                (All-of_All (λ part _. recursive_split-IsBounded last (t ∷ ss) part h e.1) _))
        | inr later ↦ rw (later, All) (recursive_split-IsBounded last (t ∷ ss) text h e.1)
      ]

  -- With a positive CHUNK_SIZE, each chunk that `chunk_text` returns is at most
  -- CHUNK_SIZE + CHUNK_OVERLAP + 2 long.
  pub chunk_text-IsBounded :
      (text : Str) → 0 < cfg.chunk_size → All (λ c. length c ≤ chunk_limit) (chunk_text cfg text)
  unfolding chunk_text
  chunk_text-IsBounded text h = elim (Bool-cases (is_empty (strip text))) [
    | inl blank ↦ rw (blank, All) tt
    | inr text_left ↦
        rw (text_left, All)
          (recursive_split-IsBounded [] separators text h
            (omega arith, (omega arith, (omega arith, refl))))
  ]
