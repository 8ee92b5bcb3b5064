-- ===== src/Ingest/Pipeline/Tracked.antt =====
-- Every point in Qdrant stands under a chunk row of its file, so that it can be deleted later: the
-- steps of the pipeline keep this whether they return or raise.
use mathlib.Core.Path.{subst}
use local_graph_rag.Prelude.{
  ℕ, ◌≡◌, ◌≢◌, refl, sym, ◌∙◌, Bool, true, false, not, List, [], ◌∷◌, In, keep, take, contains,
  is_empty, nat_eq, list_eq, ◌==◌, eq_iff, arith, Bool-cases, inl, inr, if◌then◌else◌,
}
use local_graph_rag.Prelude.Text.{Str}
use local_graph_rag.Prelude.Members.{In-keep, In-of_keep, contains-of_In}
use local_graph_rag.Graph.Tables.{ChunkRow, Store}
use local_graph_rag.Graph.Records.{refresh_entities}
use local_graph_rag.Graph.Reads.{get_chunks_for_file}
use local_graph_rag.Graph.Reads.Sorting.{In-get_chunks}
use local_graph_rag.Graph.Deletes.{
  delete_links, delete_chunks, delete_relationships, delete_mentions, delete_unreferenced,
  delete_fingerprint,
}
use local_graph_rag.Graph.Deletes.Totality.{file_deleted}
use local_graph_rag.Ingest.World.{
  Point, Fault, works, fails, World, Outcome, done, raised, pure, next, without_ids, delete_points,
  head_fault,
}
use local_graph_rag.Ingest.World.Triple.{Post, Triple}
use local_graph_rag.Ingest.Pipeline.{delete_vectors}

-- The chunk table holds the id under the path.
pub record HasRow (s : Store) (id filepath : Str) : Type 0 where
  pub row : ChunkRow
  pub there : In row s.chunks
  pub of_id : row.chunk_id ≡ id
  pub of_file : row.filepath ≡ filepath

abbrev pub TrackedIn : Store → List Point → Type 0
TrackedIn s ps = (p : Point) → In p ps → HasRow s p.id p.filepath

pub record IsTracked (w : World) : Type 0 where
  pub at : TrackedIn w.store w.vectors

-- The uuids of a run are new.
pub record IsFresh (ids : ℕ → Str) (w : World) : Type 0 where
  pub unused : (p : Point) (i : ℕ) → In p w.vectors → p.id ≢ ids i

-- No point of the file is in Qdrant.
abbrev pub NoVectors : Str → World → Type 0
NoVectors filepath w = (p : Point) → In p w.vectors → p.filepath ≢ filepath

pub In-without_ids :
    (ids : List Str) (ps : List Point) (p : Point)
    → In p (without_ids ids ps)
    → In p ps × (contains p.id ids ≡ false)
unfolding without_ids
In-without_ids ids ps p m =
    let (i, k) = In-of_keep (λ (q : Point). not (contains q.id ids)) ps p m in (i, ground arith)

-- What the deletes of a file's points leave.
pub Shrinks : World → World → Type 0
Shrinks w w' = ((p : Point) → In p w'.vectors → In p w.vectors) × (w'.store ≡ w.store)

delete_points-Post :
    (ids : List Str) (w : World)
    → Post {A = Unit {0}}
        (λ _ w'. Shrinks w w' × ((p : Point) → In p w'.vectors → contains p.id ids ≡ false))
        (λ w'. Shrinks w w')
        (delete_points ids w)
unfolding delete_points Shrinks
delete_points-Post ids w = go (head_fault w.faults)
  where
    go :
        (f : Fault)
        → Post {A = Unit {0}}
            (λ _ w'. Shrinks w w' × ((p : Point) → In p w'.vectors → contains p.id ids ≡ false))
            (λ w'. Shrinks w w')
            (elim f [
              | works ↦ (done tt, record (next w) { vectors = without_ids ids w.vectors })
              | fails k ↦ (raised, record (next w) { vectors = without_ids (take k ids) w.vectors })
            ])
    go works = (
      ((λ p m. (In-without_ids ids w.vectors p m).0), refl),
      (λ p m. (In-without_ids ids w.vectors p m).1),
    )
    go (fails k) = ((λ p m. (In-without_ids (take k ids) w.vectors p m).0), refl)

module _ (ids : ℕ → Str) where
  pub record IsHeld (w : World) : Type 0 where
    pub tracked : IsTracked w
    pub fresh : IsFresh ids w

  IsHeld-of_Shrinks : (w w' : World) → Shrinks w w' → IsHeld w → IsHeld w'
  unfolding Shrinks
  IsHeld-of_Shrinks w w' (fewer, same) h = record {
    tracked = record {
      at = λ p m. subst (λ s. HasRow s p.id p.filepath) (sym same) (h.tracked.at p (fewer p m));
    };
    fresh = record { unused = λ p i m. h.fresh.unused p i (fewer p m) };
  }

  own-In-prior :
      (filepath : Str) (w : World) (p : Point)
      → IsHeld w
      → In p w.vectors
      → p.filepath ≡ filepath
      → In p.id (get_chunks_for_file filepath w.store)
  own-In-prior filepath w p h m own =
      let r = h.tracked.at p m in
      subst (λ id. In id (get_chunks_for_file filepath w.store)) r.of_id
        (In-get_chunks filepath w.store r.row r.there
          ((eq_iff r.row.filepath filepath).1 (r.of_file ∙ own)))

  not-In-empty : (xs : List Str) (x : Str) → is_empty xs ≡ true → ¬ (In x xs)
  not-In-empty [] x e m = m
  not-In-empty (y ∷ ys) x e m = cc

  -- `_delete_vectors` returns only when no point of the file is left.
  pub delete_vectors-Triple :
      (filepath : Str)
      → Triple IsHeld (delete_vectors filepath) (λ _ w. IsHeld w × NoVectors filepath w) IsHeld
  unfolding delete_vectors
  delete_vectors-Triple filepath = record {
    at = λ w h. go w h (is_empty (get_chunks_for_file filepath w.store)) refl;
  }
    where
      deleted :
          (w : World) (h : IsHeld w) (r : Outcome (Unit {0}) × World)
          → Post
              (λ _ w'.
                Shrinks w w'
                × ((p : Point)
                    → In p w'.vectors
                    → contains p.id (get_chunks_for_file filepath w.store) ≡ false))
              (λ w'. Shrinks w w')
              r
          → Post (λ _ w'. IsHeld w' × NoVectors filepath w') IsHeld r
      deleted w h (done a, w') (s, gone) = (
        IsHeld-of_Shrinks w w' s h,
        λ p m own. cc (
          gone p m,
          contains-of_In (get_chunks_for_file filepath w.store) p.id
              (own-In-prior filepath w p h (unfold Shrinks in s.0 p m) own),
        ),
      )
      deleted w h (raised, w') s = IsHeld-of_Shrinks w w' s h

      go :
          (w : World) (h : IsHeld w) (b : Bool)
          → is_empty (get_chunks_for_file filepath w.store) ≡ b
          → Post
              (λ _ w'. IsHeld w' × NoVectors filepath w')
              IsHeld
              ((if b then pure tt else delete_points (get_chunks_for_file filepath w.store)) w)
      go w h true e = (h, λ p m own. not-In-empty _ p.id e (own-In-prior filepath w p h m own))
      go w h false e = deleted w h _ (delete_points-Post (get_chunks_for_file filepath w.store) w)

-- The chunk rows that `delete_file_data` leaves are those of the other files.
chunks-file_deleted :
    (filepath : Str) (s : Store)
    → (file_deleted filepath s).chunks
      ≡ keep (λ (c : ChunkRow). not (c.filepath == filepath)) s.chunks
unfolding delete_links delete_chunks delete_relationships delete_mentions delete_unreferenced
    refresh_entities delete_fingerprint
chunks-file_deleted filepath s = refl

pub HasRow-file_deleted :
    (filepath : Str) (s : Store) (p : Point)
    → HasRow s p.id p.filepath
    → p.filepath ≢ filepath
    → HasRow (file_deleted filepath s) p.id p.filepath
HasRow-file_deleted filepath s p r other = record {
  row = r.row;
  there = rw (chunks-file_deleted filepath s) (
      In-keep (λ (c : ChunkRow). not (c.filepath == filepath)) s.chunks r.row r.there
        (elim (Bool-cases (r.row.filepath == filepath)) [
          | inl own ↦ absurd (other (sym r.of_file ∙ (eq_iff r.row.filepath filepath).0 own))
          | inr not_own ↦ rw not_own
        ]));
  of_id = r.of_id;
  of_file = r.of_file;
}
