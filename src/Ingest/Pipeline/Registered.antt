-- ===== src/Ingest/Pipeline/Registered.antt =====
-- The chunk rows are registered before the points are written, so no new point is untracked.
use mathlib.Core.Path.{subst}
use local_graph_rag.Prelude.{
  ℕ, zero, suc, ◌+◌, ◌≡◌, refl, sym, ◌∙◌, not, some, List, [], ◌∷◌, map, In, take, All, nat_eq,
  list_eq, ◌==◌, eq_iff, Bool-cases, inl, inr, In-append_left, In-append_right,
}
use local_graph_rag.Prelude.Text.{Str}
use local_graph_rag.Prelude.Members.{In-keep, In-append}
use local_graph_rag.Graph.Tables.{ChunkRow, Store, each}
use local_graph_rag.Graph.Records.{insert_chunk, register_chunks}
use local_graph_rag.Graph.Deletes.{delete_file_data}
use local_graph_rag.Graph.Frames.{statement-then, delete_file_data-result}
use local_graph_rag.Ingest.PythonCode.{Chunk}
use local_graph_rag.Ingest.World.{
  Point, Fault, works, fails, World, done, raised, next, without_ids, put_points, upsert_points,
  head_fault, write,
}
use local_graph_rag.Ingest.World.Triple.{Post, Triple, Triple-write, Triple-bind}
use local_graph_rag.Ingest.Pipeline.{chunk_rows, build_points, cleanup_changed_file}
use local_graph_rag.Ingest.Pipeline.Tracked.{
  HasRow, TrackedIn, IsTracked, IsFresh, IsHeld, NoVectors, HasRow-file_deleted,
  delete_vectors-Triple, In-without_ids,
}

HasRow-insert_chunk :
    (c : ChunkRow) (s : Store) (id filepath : Str)
    → (c.chunk_id ≡ id → c.filepath ≡ filepath)
    → HasRow s id filepath
    → HasRow (insert_chunk c s) id filepath
unfolding insert_chunk
HasRow-insert_chunk c s id filepath same r = elim (Bool-cases (r.row.chunk_id == c.chunk_id)) [
  | inl replaced ↦
      let e : c.chunk_id ≡ id = sym ((eq_iff r.row.chunk_id c.chunk_id).0 replaced) ∙ r.of_id in
      record {
        row = c;
        there = In-append_right c _ (c ∷ []) (inl refl);
        of_id = e;
        of_file = same e;
      }
  | inr stays ↦ record {
    row = r.row;
    there = In-append_left r.row _ (c ∷ []) (
        In-keep (λ (d : ChunkRow). not (d.chunk_id == c.chunk_id)) s.chunks r.row r.there
          (rw stays));
    of_id = r.of_id;
    of_file = r.of_file;
  }
]

HasRow-insert_self : (c : ChunkRow) (s : Store) → HasRow (insert_chunk c s) c.chunk_id c.filepath
unfolding insert_chunk
HasRow-insert_self c s = record {
  row = c;
  there = In-append_right c _ (c ∷ []) (inl refl);
  of_id = refl;
  of_file = refl;
}

HasRow-each :
    (rows : List ChunkRow) (s s' : Store) (id filepath : Str)
    → each insert_chunk rows s ≡ some s'
    → All (λ c. c.chunk_id ≡ id → c.filepath ≡ filepath) rows
    → HasRow s id filepath
    → HasRow s' id filepath
unfolding each
HasRow-each [] s s' id filepath h a r = subst (λ t. HasRow t id filepath) (cc h) r
HasRow-each (c ∷ cs) s s' id filepath h a r =
    HasRow-each cs (insert_chunk c s) s' id filepath
      (statement-then (insert_chunk c) s (each insert_chunk cs) h) a.1
      (HasRow-insert_chunk c s id filepath a.0 r)

each-HasRow :
    (filepath : Str) (rows : List ChunkRow) (s s' : Store)
    → each insert_chunk rows s ≡ some s'
    → All (λ c. c.filepath ≡ filepath) rows
    → All (λ c. HasRow s' c.chunk_id filepath) rows
unfolding each
each-HasRow filepath [] s s' h a = tt
each-HasRow filepath (c ∷ cs) s s' h a =
    let later = statement-then (insert_chunk c) s (each insert_chunk cs) h in
    (
      HasRow-each cs (insert_chunk c s) s' c.chunk_id filepath later (ignore cs a.1)
          (subst (HasRow (insert_chunk c s) c.chunk_id) a.0 (HasRow-insert_self c s)),
      each-HasRow filepath cs (insert_chunk c s) s' later a.1,
    )
  where
    ignore :
        (rows : List ChunkRow)
        → All (λ c. c.filepath ≡ filepath) rows
        → All (λ d. d.chunk_id ≡ c.chunk_id → d.filepath ≡ filepath) rows
    ignore [] a = tt
    ignore (d ∷ ds) a = ((λ _. a.0), ignore ds a.1)

-- The points of one file under the run's uuids.
abbrev pub OfFile : (ℕ → Str) → Str → List Point → Type 0
OfFile ids filepath points = All (λ p. (p.filepath ≡ filepath) × ((i : ℕ) × (p.id ≡ ids i))) points

pub build_points-OfFile :
    (ids : ℕ → Str) (filepath : Str) (i : ℕ) (chunks : List Chunk)
    → OfFile ids filepath (build_points ids filepath i chunks)
unfolding build_points
build_points-OfFile ids filepath i [] = tt
build_points-OfFile ids filepath i ((text, name) ∷ chunks) =
    ((refl, (i, refl)), build_points-OfFile ids filepath (i + 1) chunks)

abbrev pub Registered : List Point → World → Type 0
Registered points w = (p : Point) → In p points → HasRow w.store p.id p.filepath

module _ (ids : ℕ → Str) (filepath : Str) where
  rows-OfFile :
      (points : List Point)
      → OfFile ids filepath points
      → All (λ c. c.filepath ≡ filepath) (chunk_rows points)
  rows-OfFile [] a = tt
  rows-OfFile (p ∷ ps) a = (a.0.0, rows-OfFile ps a.1)

  -- A tracked point keeps its row, since its id is none of the new ones.
  rows-avoid :
      (points : List Point) (w : World) (q : Point)
      → OfFile ids filepath points
      → IsFresh ids w
      → In q w.vectors
      → All (λ c. c.chunk_id ≡ q.id → c.filepath ≡ q.filepath) (chunk_rows points)
  rows-avoid [] w q a f m = tt
  rows-avoid (p ∷ ps) w q a f m =
      let (i, e) = a.0.1 in
      ((λ same. absurd (f.unused q i m (sym same ∙ e))), rows-avoid ps w q a.1 f m)

  rows-Registered :
      (s : Store) (points : List Point)
      → OfFile ids filepath points
      → All (λ c. HasRow s c.chunk_id filepath) (chunk_rows points)
      → (p : Point) → In p points
      → HasRow s p.id p.filepath
  rows-Registered s [] o a p m = elim m [ ]
  rows-Registered s (q ∷ qs) o a p (inl e) =
      subst (λ (x : Point). HasRow s x.id x.filepath) (sym e)
        (subst (HasRow s q.id) (sym o.0.0) a.0)
  rows-Registered s (q ∷ qs) o a p (inr m) = rows-Registered s qs o.1 a.1 p m

  pub register-Triple :
      (points : List Point)
      → OfFile ids filepath points
      → Triple
          (IsHeld ids)
          (write (register_chunks (chunk_rows points)))
          (λ _ w. IsTracked w × Registered points w)
          IsTracked
  unfolding register_chunks
  register-Triple points o =
      Triple-write (register_chunks (chunk_rows points))
        (λ w s h e. (
          record {
            at = λ q m.
                HasRow-each (chunk_rows points) w.store s q.id q.filepath e
                  (rows-avoid points w q o h.fresh m) (h.tracked.at q m);
          },
          rows-Registered s points o
              (each-HasRow filepath (chunk_rows points) w.store s e (rows-OfFile points o)),
        ))
        (λ w h. record { at = h.tracked.at })

In-take : (n : ℕ) (ps : List Point) (p : Point) → In p (take n ps) → In p ps
In-take zero ps p m = elim m [ ]
In-take (suc n) [] p m = m
In-take (suc n) (q ∷ qs) p (inl e) = inl e
In-take (suc n) (q ∷ qs) p (inr m) = inr (In-take n qs p m)

put_points-Tracked :
    (new ps : List Point) (s : Store)
    → TrackedIn s ps
    → ((p : Point) → In p new → HasRow s p.id p.filepath)
    → TrackedIn s (put_points new ps)
unfolding put_points
put_points-Tracked new ps s t r p m =
    elim (In-append (without_ids (map (λ (q : Point). q.id) new) ps) new p m) [
      | inl old ↦ t p (In-without_ids (map (λ (q : Point). q.id) new) ps p old).0
      | inr own ↦ r p own
    ]

pub upsert_points-Triple :
    (points : List Point)
    → Triple
        (λ w. IsTracked w × Registered points w)
        (upsert_points points)
        (λ _ w. IsTracked w)
        IsTracked
unfolding upsert_points
upsert_points-Triple points = record { at = λ w h. go w h (head_fault w.faults) }
  where
    go :
        (w : World)
        → IsTracked w × Registered points w
        → (f : Fault)
        → Post {A = Unit {0}}
            (λ _ w. IsTracked w)
            IsTracked
            (elim f [
              | works ↦ (done tt, record (next w) { vectors = put_points points w.vectors })
              | fails k ↦
                  (raised, record (next w) { vectors = put_points (take k points) w.vectors })
            ])
    go w h works = record { at = put_points-Tracked points w.vectors w.store h.0.at h.1 }
    go w h (fails k) = record {
      at =
          put_points-Tracked (take k points) w.vectors w.store h.0.at
            (λ p m. h.1 p (In-take k points p m));
    }

-- After the vectors of a file are gone its rows can go.
pub cleanup-Triple :
    (ids : ℕ → Str) (filepath : Str)
    → Triple (IsHeld ids) (cleanup_changed_file filepath) (λ _ w. IsHeld ids w) (IsHeld ids)
unfolding cleanup_changed_file
cleanup-Triple ids filepath =
    Triple-bind (λ _ w. IsHeld ids w × NoVectors filepath w) (delete_vectors-Triple ids filepath)
      (λ _.
        Triple-write (delete_file_data filepath)
          (λ w s h e. record {
            tracked = record {
              at = λ p m.
                  subst (λ t. HasRow t p.id p.filepath)
                    (sym (delete_file_data-result filepath w.store s e))
                    (HasRow-file_deleted filepath w.store p (h.0.tracked.at p m) (h.1 p m));
            };
            fresh = record { unused = h.0.fresh.unused };
          })
          (λ w h. record {
            tracked = record { at = h.0.tracked.at };
            fresh = record { unused = h.0.fresh.unused };
          }))
