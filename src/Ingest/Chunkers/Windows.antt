-- ===== src/Ingest/Chunkers/Windows.antt =====
-- What the windows of `_merge_splits` hold, and how long they are.
use local_graph_rag.Prelude.{
  ℕ, ◌+◌, ◌-◌, ◌≤◌, ◌≡◌, refl, Bool, true, false, List, [], ◌∷◌, ◌++◌, length, length-append, All,
  All-append, if◌then◌else◌, arith, ap, ltb, is_empty, Bool-cases, inl, inr,
}
use mathlib.Core.List.{append_assoc, append-nil}
use local_graph_rag.Prelude.Text.{Str, join}
use local_graph_rag.Settings.{Settings}
use local_graph_rag.Ingest.Chunkers.{
  joint, drop_overlap, is_full, make_room, merge_from, merge_splits,
}

pub length-join-cons :
    (sep p : Str) (ps : List Str)
    → length (join sep (p ∷ ps)) ≡ length p + joint (length sep) ps + length (join sep ps)
unfolding join
length-join-cons sep p [] = omega arith
length-join-cons sep p (q ∷ ps) =
    omega (arith, length-append p (sep ++ join sep (q ∷ ps)), length-append sep (join sep (q ∷ ps)))

pub length-join-snoc :
    (sep : Str) (ps : List Str) (s : Str)
    → length (join sep (ps ++ s ∷ [])) ≡ length (join sep ps) + (length s + joint (length sep) ps)
unfolding join
length-join-snoc sep [] s = omega arith
length-join-snoc sep (p ∷ []) s = omega (arith, length-append p (sep ++ s), length-append sep s)
length-join-snoc sep (p ∷ q ∷ ps) s = omega (
  arith,
  length-join-cons sep p (q ∷ ps),
  length-join-cons sep p ((q ∷ ps) ++ s ∷ []),
  length-join-snoc sep (q ∷ ps) s,
)

module _ (cfg : Settings) (sep : Str) where
  abbrev Measured : ℕ × List Str → Type 0
  Measured w = w.0 ≡ length (join sep w.1)

  drop_overlap-Measured :
      (n : ℕ) (current : List Str)
      → n ≡ length (join sep current)
      → Measured (drop_overlap cfg (length sep) n current)
        × ((drop_overlap cfg (length sep) n current).0 ≤ cfg.chunk_overlap)
  unfolding drop_overlap
  drop_overlap-Measured n [] h = (h, unfold join in omega arith)
  drop_overlap-Measured n (p ∷ ps) h = ground (
    arith,
    length-join-cons sep p ps,
    drop_overlap-Measured (n - (length p + joint (length sep) ps)) ps
        (omega (arith, length-join-cons sep p ps)),
  )

  joint-le : (ps : List Str) → joint (length sep) ps ≤ length sep
  joint-le [] = omega arith
  joint-le (p ∷ ps) = omega arith

  abbrev Short : Str → Type 0
  Short c = length c ≤ cfg.chunk_size + cfg.chunk_overlap + length sep

  make_room-Measured :
      (n : ℕ) (current : List Str) (split : Str)
      → n ≡ length (join sep current)
      → length split ≤ cfg.chunk_size
      → let w = make_room cfg (length sep) n current split in
        Measured w
        × (w.0 + (length split + joint (length sep) w.1)
            ≤ cfg.chunk_size + cfg.chunk_overlap + length sep)
  unfolding make_room is_full
  make_room-Measured n [] split h k = unfold join in (h, ground arith)
  make_room-Measured n (p ∷ ps) split h k = ground (
    arith,
    drop_overlap-Measured n (p ∷ ps) h,
    joint-le (p ∷ ps),
    joint-le (drop_overlap cfg (length sep) n (p ∷ ps)).1,
  )

  merge_from-Short :
      (n : ℕ) (current splits : List Str)
      → n ≡ length (join sep current)
      → n ≤ cfg.chunk_size + cfg.chunk_overlap + length sep
      → All (λ split. length split ≤ cfg.chunk_size) splits
      → All Short (merge_from cfg sep n current splits)
  unfolding merge_from
  merge_from-Short n [] [] h k a = tt
  merge_from-Short n (p ∷ ps) [] h k a = (omega arith, tt)
  merge_from-Short n current (split ∷ splits) h k a =
      let w = make_room cfg (length sep) n current split in
      let r = make_room-Measured n current split h a.0 in
      let later =
        merge_from-Short (w.0 + (length split + joint (length sep) w.1)) (w.1 ++ split ∷ []) splits
          (omega (arith, length-join-snoc sep w.1 split, r.0)) r.1 a.1 in
      All-append Short _ _ (emitted (is_full cfg (length sep) n current split)) later
    where
      emitted : (b : Bool) → All Short (if b then join sep current ∷ [] else [])
      emitted true = (omega arith, tt)
      emitted false = tt

  -- A chunk of `_merge_splits` is at most CHUNK_SIZE + CHUNK_OVERLAP + len(separator) long, if no
  -- part is longer than CHUNK_SIZE.
  pub merge_splits-Short :
      (splits : List Str)
      → All (λ split. length split ≤ cfg.chunk_size) splits
      → All Short (merge_splits cfg splits sep)
  unfolding merge_splits
  merge_splits-Short splits a = merge_from-Short 0 [] splits (unfold join in refl) (omega arith) a

-- The windows over a list of parts, after the window `before`. Each chunk joins some of the last
-- parts of the window before it, `kept`, and one or more of the parts that come next, `fresh`; at
-- the end no part is left.
pub data Windows (sep : Str) : List Str → List Str → List Str → Type 0 where
  done : {before : List Str} → Windows sep before [] []
  window :
      {before parts chunks : List Str} (dropped kept : List Str) (f : Str) (fresh rest : List Str)
      → before ≡ dropped ++ kept
      → parts ≡ f ∷ (fresh ++ rest)
      → Windows sep (kept ++ f ∷ fresh) rest chunks
      → Windows sep before parts (join sep (kept ++ f ∷ fresh) ∷ chunks)

is_empty-middle : (xs : List Str) (y : Str) (ys : List Str) → is_empty (xs ++ y ∷ ys) ≡ false
is_empty-middle [] y ys = refl
is_empty-middle (x ∷ xs) y ys = refl

module _ (cfg : Settings) (sep : Str) where
  drop_overlap-suffix :
      (n : ℕ) (current : List Str)
      → (dropped : List Str) × (current ≡ dropped ++ (drop_overlap cfg (length sep) n current).1)
  unfolding drop_overlap
  drop_overlap-suffix n [] = ([], refl)
  drop_overlap-suffix n (p ∷ ps) = elim (Bool-cases (ltb cfg.chunk_overlap n)) [
    | inl drops ↦
        let (dropped, e) = drop_overlap-suffix (n - (length p + joint (length sep) ps)) ps in
        (p ∷ dropped, rw (drops, drop_overlap) (ap (◌∷◌ p) e))
    | inr stops ↦ ([], rw (stops, drop_overlap))
  ]

  merge_from-Windows :
      (splits before dropped kept : List Str) (f : Str) (fresh : List Str) (n : ℕ)
      → before ≡ dropped ++ kept
      → Windows sep before (f ∷ (fresh ++ splits)) (merge_from cfg sep n (kept ++ f ∷ fresh) splits)
  unfolding merge_from make_room
  merge_from-Windows [] before dropped kept f fresh n e =
      rw (is_empty-middle kept f fresh) (window dropped kept f fresh [] e (rw append-nil) done)
  merge_from-Windows (split ∷ splits) before dropped kept f fresh n e =
      elim (Bool-cases (is_full cfg (length sep) n (kept ++ f ∷ fresh) split)) [
        | inl full ↦
            let (gone, e') = drop_overlap-suffix n (kept ++ f ∷ fresh) in
            rw full (
              window dropped kept f fresh (split ∷ splits) e refl
                (merge_from-Windows splits _ gone _ split [] _ e'))
        | inr fits ↦
            rw
              (
                fits,
                append_assoc kept (f ∷ fresh) (split ∷ []),
                ← append_assoc fresh (split ∷ []) splits,
              )
              (merge_from-Windows splits before dropped kept f (fresh ++ split ∷ []) _ e)
      ]

  -- The chunks of `_merge_splits` are windows over all its parts, in order: each chunk repeats only
  -- last parts of the chunk before it, and goes on with the parts that come next.
  pub merge_splits-Windows :
      (splits : List Str) → Windows sep [] splits (merge_splits cfg splits sep)
  unfolding merge_splits merge_from make_room is_full
  merge_splits-Windows [] = done
  merge_splits-Windows (s ∷ splits) = merge_from-Windows splits [] [] [] s [] _ refl
