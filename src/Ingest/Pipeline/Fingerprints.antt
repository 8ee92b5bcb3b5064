-- ===== src/Ingest/Pipeline/Fingerprints.antt =====
-- A file's fingerprint is the last thing that its indexing writes.
use mathlib.Core.Path.{subst}
use local_graph_rag.Prelude.{
  ℕ, ◌≡◌, ◌≢◌, sym, ap, ◌∙◌, not, Option, none, some, List, [], ◌∷◌, take, is_empty, nat_eq,
  list_eq, ◌==◌,
}
use local_graph_rag.Prelude.Text.{Str}
use local_graph_rag.Settings.{Settings}
use local_graph_rag.Outside.{Outside}
use local_graph_rag.Graph.Tables.{Fingerprint, Store, ◌>>=◌}
use local_graph_rag.Graph.Records.{register_chunks, refresh_entities}
use local_graph_rag.Graph.Deletes.{
  delete_links, delete_chunks, delete_relationships, delete_mentions, delete_unreferenced,
  delete_fingerprint, delete_file_data,
}
use local_graph_rag.Graph.Deletes.Totality.{file_deleted}
use local_graph_rag.Graph.Reads.{find, get_hash, upsert_hash, get_chunks_for_file}
use local_graph_rag.Graph.Reads.Lookup.{find-dropped}
use local_graph_rag.Graph.Frames.{register_chunks-fingerprints, delete_file_data-result}
use local_graph_rag.Ingest.PythonCode.{Chunk}
use local_graph_rag.Ingest.World.{
  Point, Fault, works, fails, World, done, raised, pure, next, head_fault, write, delete_points,
  upsert_points, without_ids, put_points,
}
use local_graph_rag.Ingest.World.Triple.{
  Post, Triple, Triple-bind, Triple-pure, Triple-if, Triple-gets, Triple-write, Triple-call,
}
use local_graph_rag.Ingest.Pipeline.{
  File, indexed, skipped, chunk_file, chunk_rows, build_points, write_index_data, delete_vectors,
  cleanup_changed_file, index_chunks, index_chunked, index_text, is_current, index_hashed,
  index_file,
}
use local_graph_rag.Ingest.Pipeline.Kept.{Kept, extract_for-Kept, write_graph-Kept}

get_hash-same :
    (filepath : Str) (s t : Store)
    → s.fingerprints ≡ t.fingerprints
    → get_hash filepath s ≡ get_hash filepath t
unfolding get_hash
get_hash-same filepath s t e =
    ap
      (λ (rows : List Fingerprint).
        find (λ f. f.filepath == filepath) rows >>= λ row. some row.sha256)
      e

get_hash-file_deleted :
    (filepath : Str) (s : Store) → get_hash filepath (file_deleted filepath s) ≡ none
unfolding get_hash delete_fingerprint refresh_entities delete_unreferenced delete_mentions
    delete_relationships delete_chunks delete_links
get_hash-file_deleted filepath s =
    ap (λ (row : Option Fingerprint). row >>= λ f. some f.sha256)
      (find-dropped (λ (f : Fingerprint). f.filepath == filepath)
        (λ f. not (f.filepath == filepath)) s.fingerprints (λ f h. ap not h))

-- The store does not say that the file has been indexed with the content of that hash.
pub record Unmarked (filepath sha : Str) (w : World) : Type 0 where
  pub at : get_hash filepath w.store ≢ some sha

module _ (filepath sha : Str) where
  Unmarked-on :
      (w : World) (s : Store)
      → s.fingerprints ≡ w.store.fingerprints
      → Unmarked filepath sha w
      → Unmarked filepath sha (record (next w) { store = s })
  Unmarked-on w s e u = record { at = λ h. u.at (sym (get_hash-same filepath s w.store e) ∙ h) }

  Unmarked-next : (w : World) → Unmarked filepath sha w → Unmarked filepath sha (next w)
  Unmarked-next w u = record { at = u.at }

  Unmarked-Kept : Kept (Unmarked filepath sha)
  Unmarked-Kept = record {
    on_store = λ w s e u. Unmarked-on w s (ap (λ v. v.1) e) u;
    on_next = Unmarked-next;
  }

  delete_points-Unmarked :
      (ids : List Str)
      → Triple
          (Unmarked filepath sha)
          (delete_points ids)
          (λ _ w. Unmarked filepath sha w)
          (Unmarked filepath sha)
  unfolding delete_points
  delete_points-Unmarked ids = record { at = λ w u. go w u (head_fault w.faults) }
    where
      go :
          (w : World)
          → Unmarked filepath sha w
          → (f : Fault)
          → Post {A = Unit {0}}
              (λ _ w. Unmarked filepath sha w)
              (Unmarked filepath sha)
              (elim f [
                | works ↦ (done tt, record (next w) { vectors = without_ids ids w.vectors })
                | fails k ↦
                    (raised, record (next w) { vectors = without_ids (take k ids) w.vectors })
              ])
      go w u works = record { at = u.at }
      go w u (fails k) = record { at = u.at }

  upsert_points-Unmarked :
      (points : List Point)
      → Triple
          (Unmarked filepath sha)
          (upsert_points points)
          (λ _ w. Unmarked filepath sha w)
          (Unmarked filepath sha)
  unfolding upsert_points
  upsert_points-Unmarked points = record { at = λ w u. go w u (head_fault w.faults) }
    where
      go :
          (w : World)
          → Unmarked filepath sha w
          → (f : Fault)
          → Post {A = Unit {0}}
              (λ _ w. Unmarked filepath sha w)
              (Unmarked filepath sha)
              (elim f [
                | works ↦ (done tt, record (next w) { vectors = put_points points w.vectors })
                | fails k ↦
                    (raised, record (next w) { vectors = put_points (take k points) w.vectors })
              ])
      go w u works = record { at = u.at }
      go w u (fails k) = record { at = u.at }

  register-Unmarked :
      (points : List Point)
      → Triple
          (Unmarked filepath sha)
          (write (register_chunks (chunk_rows points)))
          (λ _ w. Unmarked filepath sha w)
          (Unmarked filepath sha)
  register-Unmarked points =
      Triple-write (register_chunks (chunk_rows points))
        (λ w s u e.
          Unmarked-on w s (register_chunks-fingerprints (chunk_rows points) w.store s e) u)
        Unmarked-next

  cleanup-Unmarked :
      Triple
        (Unmarked filepath sha)
        (cleanup_changed_file filepath)
        (λ _ w. Unmarked filepath sha w)
        (Unmarked filepath sha)
  unfolding cleanup_changed_file delete_vectors
  cleanup-Unmarked =
      Triple-bind (λ _ w. Unmarked filepath sha w)
        (Triple-bind (λ _ w. Unmarked filepath sha w) (Triple-gets (get_chunks_for_file filepath))
          (λ prior_ids.
            Triple-if {m = pure tt} (is_empty prior_ids) (Triple-pure tt)
              (delete_points-Unmarked prior_ids)))
        (λ _.
          Triple-write (delete_file_data filepath)
            (λ w s u e. record {
              at = λ h. cc (
                  sym (
                    ap (get_hash filepath) (delete_file_data-result filepath w.store s e)
                    ∙ get_hash-file_deleted filepath w.store)
                  ∙ h);
            })
            Unmarked-next)

  -- The write of the fingerprint marks the file; if it raises it does not.
  mark-Triple :
      Triple
        (Unmarked filepath sha)
        (write (upsert_hash filepath sha))
        (λ _ w. Unit {0})
        (Unmarked filepath sha)
  mark-Triple = Triple-write (upsert_hash filepath sha) (λ w s u e. tt) Unmarked-next

module _ (outside : Outside) (cfg : Settings) (ids : ℕ → Str) (file : File) (sha : Str) where
  write_index_data-Unmarked :
      (points : List Point)
      → Triple
          (Unmarked file.filepath sha)
          (write_index_data outside cfg file points sha)
          (λ _ w. Unit {0})
          (Unmarked file.filepath sha)
  unfolding write_index_data
  write_index_data-Unmarked points =
      let kept = Unmarked-Kept file.filepath sha in
      Triple-bind (λ _ w. Unmarked file.filepath sha w) (register-Unmarked file.filepath sha points)
        (λ _.
          Triple-bind (λ _ w. Unmarked file.filepath sha w)
            (upsert_points-Unmarked file.filepath sha points)
            (λ _.
              Triple-bind (λ _ w. Unmarked file.filepath sha w)
                (extract_for-Kept kept outside cfg file points)
                (λ result. write_graph-Kept kept outside file points sha result (
                  Triple-if {m = pure tt} result.had_failure (record { at = λ w u. tt })
                    (mark-Triple file.filepath sha)))))

  index_chunks-Unmarked :
      (chunks : List Chunk)
      → Triple
          (Unmarked file.filepath sha)
          (index_chunks outside cfg ids file sha chunks)
          (λ _ w. Unit {0})
          (Unmarked file.filepath sha)
  unfolding index_chunks
  index_chunks-Unmarked [] =
      Triple-bind (λ _ w. Unmarked file.filepath sha w) (cleanup-Unmarked file.filepath sha)
        (λ _.
          Triple-bind (λ _ w. Unit {0}) (mark-Triple file.filepath sha) (λ _. Triple-pure skipped))
  index_chunks-Unmarked (c ∷ cs) =
      Triple-bind (λ _ w. Unmarked file.filepath sha w)
        (Triple-call (Unmarked-next file.filepath sha) (Unmarked-next file.filepath sha))
        (λ _.
          Triple-bind (λ _ w. Unmarked file.filepath sha w) (cleanup-Unmarked file.filepath sha)
            (λ _.
              Triple-bind (λ _ w. Unit {0})
                (write_index_data-Unmarked (build_points ids file.filepath 0 (c ∷ cs)))
                (λ _. Triple-pure indexed)))

  index_chunked-Unmarked :
      (chunked : Option (List Chunk))
      → Triple
          (Unmarked file.filepath sha)
          (index_chunked outside cfg ids file sha chunked)
          (λ _ w. Unit {0})
          (Unmarked file.filepath sha)
  unfolding index_chunked
  index_chunked-Unmarked none = record { at = λ w u. u }
  index_chunked-Unmarked (some chunks) = index_chunks-Unmarked chunks

  index_text-Unmarked :
      (text : Option Str)
      → Triple
          (Unmarked file.filepath sha)
          (index_text outside cfg ids file sha text)
          (λ _ w. Unit {0})
          (Unmarked file.filepath sha)
  unfolding index_text
  index_text-Unmarked none = record { at = λ w u. tt }
  index_text-Unmarked (some text) = index_chunked-Unmarked (chunk_file outside cfg file text)

  index_hashed-Unmarked :
      Triple
        (Unmarked file.filepath sha)
        (index_hashed outside cfg ids file (some sha))
        (λ _ w. Unit {0})
        (Unmarked file.filepath sha)
  unfolding index_hashed
  index_hashed-Unmarked =
      Triple-bind (λ _ w. Unmarked file.filepath sha w) (Triple-gets (get_hash file.filepath))
        (λ known.
          Triple-if {m = pure skipped} (is_current sha known) (record { at = λ w u. tt })
            (index_text-Unmarked file.text))

  -- If the store does not hold the hash of a file's content and `_index_file` raises, the store does
  -- not hold it afterwards, so that the next run tries the file again.
  pub raised-Unmarked :
      (w w' : World)
      → file.sha256 ≡ some sha
      → Unmarked file.filepath sha w
      → index_file outside cfg ids file w ≡ (raised, w')
      → Unmarked file.filepath sha w'
  unfolding index_file
  raised-Unmarked w w' hashed u r =
      let post = index_hashed-Unmarked.at w u in
      after (subst (λ o. index_hashed outside cfg ids file o w ≡ (raised, w')) hashed r) post
    where
      after :
          index_hashed outside cfg ids file (some sha) w ≡ (raised, w')
          → Post
              (λ _ w. Unit {0})
              (Unmarked file.filepath sha)
              (index_hashed outside cfg ids file (some sha) w)
          → Unmarked file.filepath sha w'
      after e post = subst (λ o. Post (λ _ w. Unit {0}) (Unmarked file.filepath sha) o) e post
