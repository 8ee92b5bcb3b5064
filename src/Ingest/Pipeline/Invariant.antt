-- ===== src/Ingest/Pipeline/Invariant.antt =====
-- Whatever fails while a file is indexed, every point of the collection stays tracked by its row.
use mathlib.Core.Path.{subst}
use local_graph_rag.Prelude.{
  ℕ, ◌≡◌, sym, ap, Option, none, some, List, [], ◌∷◌, In, nat_eq, list_eq,
}
use local_graph_rag.Prelude.Text.{Str}
use local_graph_rag.Settings.{Settings}
use local_graph_rag.Outside.{Outside}
use local_graph_rag.Graph.Tables.{Store}
use local_graph_rag.Graph.Integrity.{statement-result}
use local_graph_rag.Graph.Reads.{set_fingerprint, upsert_hash, get_hash}
use local_graph_rag.Ingest.World.{World, Outcome, done, raised, pure, next, write}
use local_graph_rag.Ingest.World.Triple.{
  Post, Triple, Triple-bind, Triple-pure, Triple-gets, Triple-write, Triple-if, Triple-call,
}
use local_graph_rag.Ingest.Pipeline.Tracked.{IsTracked, IsHeld}
use local_graph_rag.Ingest.PythonCode.{Chunk}
use local_graph_rag.Ingest.Pipeline.{
  File, Status, indexed, skipped, chunk_file, build_points, write_index_data, cleanup_changed_file,
  index_chunks, index_chunked, index_text, is_current, index_hashed, index_file,
}
use local_graph_rag.Ingest.Pipeline.Kept.{Kept, extract_for-Kept, write_graph-Kept}
use local_graph_rag.Ingest.Pipeline.Registered.{
  build_points-OfFile, Registered, register-Triple, upsert_points-Triple, cleanup-Triple,
}

-- A step that keeps the chunk rows keeps what is tracked.
IsTracked-same_chunks :
    (w : World) (s : Store)
    → s.chunks ≡ w.store.chunks
    → IsTracked w
    → IsTracked (record (next w) { store = s })
IsTracked-same_chunks w s e t = record {
  at = λ p m.
      let r = t.at p m in
      record {
        row = r.row;
        there = subst (λ rows. In r.row rows) (sym e) r.there;
        of_id = r.of_id;
        of_file = r.of_file;
      };
}

IsTracked-next : (w : World) → IsTracked w → IsTracked (next w)
IsTracked-next w t = record { at = t.at }

upsert_hash-Tracked :
    (filepath sha : Str)
    → Triple IsTracked (write (upsert_hash filepath sha)) (λ _ w. IsTracked w) IsTracked
unfolding upsert_hash set_fingerprint
upsert_hash-Tracked filepath sha =
    Triple-write (upsert_hash filepath sha)
      (λ w s t e. IsTracked-same_chunks w s (same w.store s e) t) IsTracked-next
  where
    same : (s s' : Store) → upsert_hash filepath sha s ≡ some s' → s'.chunks ≡ s.chunks
    same s s' e =
        ap (λ (t : Store). t.chunks)
          (statement-result (set_fingerprint (record { filepath = filepath; sha256 = sha })) s s'
            e).0

IsTracked-Kept : Kept IsTracked
IsTracked-Kept = record {
  on_store = λ w s e t. IsTracked-same_chunks w s (ap (λ v. v.0) e) t;
  on_next = IsTracked-next;
}

module _ (outside : Outside) (cfg : Settings) (ids : ℕ → Str) (file : File)
    (current_hash : Str) where
  write_index_data-Tracked :
      (chunks : List Chunk)
      → Triple
          (IsHeld ids)
          (write_index_data outside cfg file (build_points ids file.filepath 0 chunks) current_hash)
          (λ _ w. IsTracked w)
          IsTracked
  unfolding write_index_data
  write_index_data-Tracked chunks =
      let points = build_points ids file.filepath 0 chunks in
      Triple-bind (λ _ w. IsTracked w × Registered points w)
        (register-Triple ids file.filepath points (build_points-OfFile ids file.filepath 0 chunks))
        (λ _.
          Triple-bind (λ _ w. IsTracked w) (upsert_points-Triple points)
            (λ _.
              Triple-bind (λ _ w. IsTracked w)
                (extract_for-Kept IsTracked-Kept outside cfg file points)
                (λ result. write_graph-Kept IsTracked-Kept outside file points current_hash result (
                  Triple-if result.had_failure (Triple-pure tt)
                    (upsert_hash-Tracked file.filepath current_hash)))))

  -- The weaker postconditions that end a held state.
  cleanup-Tracked :
      Triple (IsHeld ids) (cleanup_changed_file file.filepath) (λ _ w. IsHeld ids w) IsTracked
  cleanup-Tracked = record {
    at = λ w h.
        weaken (cleanup_changed_file file.filepath w) ((cleanup-Triple ids file.filepath).at w h);
  }
    where
      weaken :
          (r : Outcome (Unit {0}) × World)
          → Post (λ _ w. IsHeld ids w) (IsHeld ids) r
          → Post (λ _ w. IsHeld ids w) IsTracked r
      weaken (done a, w) h = h
      weaken (raised, w) h = h.tracked

  index_chunks-Tracked :
      (chunks : List Chunk)
      → Triple
          (IsHeld ids)
          (index_chunks outside cfg ids file current_hash chunks)
          (λ _ w. IsTracked w)
          IsTracked
  unfolding index_chunks
  index_chunks-Tracked [] =
      Triple-bind (λ _ w. IsTracked w)
        (record {
          at = λ w h. drop_fresh (cleanup_changed_file file.filepath w) (cleanup-Tracked.at w h);
        })
        (λ _.
          Triple-bind (λ _ w. IsTracked w) (upsert_hash-Tracked file.filepath current_hash)
            (λ _. Triple-pure skipped))
    where
      drop_fresh :
          (r : Outcome (Unit {0}) × World)
          → Post (λ _ w. IsHeld ids w) IsTracked r
          → Post (λ _ w. IsTracked w) IsTracked r
      drop_fresh (done a, w) h = h.tracked
      drop_fresh (raised, w) h = h
  index_chunks-Tracked (c ∷ cs) =
      Triple-bind (λ _ w. IsHeld ids w)
        (Triple-call
          (λ w h. record {
            tracked = IsTracked-next w h.tracked;
            fresh = record { unused = h.fresh.unused };
          })
          (λ w h. IsTracked-next w h.tracked))
        (λ _.
          Triple-bind (λ _ w. IsHeld ids w) cleanup-Tracked
            (λ _.
              Triple-bind (λ _ w. IsTracked w) (write_index_data-Tracked (c ∷ cs))
                (λ _. Triple-pure indexed)))

  index_chunked-Tracked :
      (chunked : Option (List Chunk))
      → Triple
          (IsHeld ids)
          (index_chunked outside cfg ids file current_hash chunked)
          (λ _ w. IsTracked w)
          IsTracked
  unfolding index_chunked
  index_chunked-Tracked none = record { at = λ w h. h.tracked }
  index_chunked-Tracked (some chunks) = index_chunks-Tracked chunks

  index_text-Tracked :
      (text : Option Str)
      → Triple
          (IsHeld ids)
          (index_text outside cfg ids file current_hash text)
          (λ _ w. IsTracked w)
          IsTracked
  unfolding index_text
  index_text-Tracked none = record { at = λ w h. h.tracked }
  index_text-Tracked (some text) = index_chunked-Tracked (chunk_file outside cfg file text)

module _ (outside : Outside) (cfg : Settings) (ids : ℕ → Str) (file : File) where
  index_hashed-Tracked :
      (sha : Option Str)
      → Triple (IsHeld ids) (index_hashed outside cfg ids file sha) (λ _ w. IsTracked w) IsTracked
  unfolding index_hashed
  index_hashed-Tracked none = record { at = λ w h. h.tracked }
  index_hashed-Tracked (some current_hash) =
      Triple-bind (λ _ w. IsHeld ids w) (Triple-gets (get_hash file.filepath))
        (λ known.
          Triple-if {m = pure skipped} (is_current current_hash known)
            (record { at = λ w h. h.tracked })
            (index_text-Tracked outside cfg ids file current_hash file.text))

  -- From a state where every point of the collection stands under a row of the chunk table with its
  -- id and path, and the uuids of this run are those of no point, every such point still does after
  -- `_index_file`, whether it returns or raises, and whichever calls of the services fail, after
  -- whichever part of their work.
  pub index_file-IsTracked :
      (w : World) → IsHeld ids w → IsTracked (index_file outside cfg ids file w).1
  unfolding index_file
  index_file-IsTracked w h =
      either (index_hashed outside cfg ids file file.sha256 w)
        ((index_hashed-Tracked file.sha256).at w h)
    where
      either :
          (r : Outcome Status × World) → Post (λ _ w'. IsTracked w') IsTracked r → IsTracked r.1
      either (done a, w') t = t
      either (raised, w') t = t
