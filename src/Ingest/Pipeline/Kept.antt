-- ===== src/Ingest/Pipeline/Kept.antt =====
-- What the transactions keep that leave the chunk rows and the fingerprints as they were: those of
-- the extraction (src/local_graph_rag/graph/extractor.py) and of the graph data.
use local_graph_rag.Prelude.{
  if◌then◌else◌, ℕ, ◌+◌, ◌≡◌, ap, Option, none, some, List, [], ◌∷◌, nat_eq, list_eq, Option-cases,
  inl, inr, map, is_empty,
}
use local_graph_rag.Prelude.Text.{Str}
use local_graph_rag.Settings.{Settings}
use local_graph_rag.Outside.{Outside}
use local_graph_rag.Graph.Tables.{CacheRow, Store}
use local_graph_rag.Graph.Integrity.{statement-result}
use local_graph_rag.Graph.Reads.{
  insert_cached, cache_extraction, get_cached_extraction, upsert_hash,
}
use local_graph_rag.Graph.Extractor.{
  Reply, parse_extraction_response, build_batches, ExtractionResult, empty_result,
}
use local_graph_rag.Ingest.World.{World, Outcome, done, raised, pure, next, write, Point}
use local_graph_rag.Ingest.World.Triple.{
  Post, Triple, Triple-bind, Triple-pure, Triple-gets, Triple-write, Triple-if, Triple-write_for,
}
use local_graph_rag.Ingest.Extraction.{
  prompt_for, extract_batch, load_or_extract_batch, attempt, extract_from,
  extract_entities_for_file,
}
use local_graph_rag.Graph.Records.{upsert_entities, upsert_relationships, link_chunks}
use local_graph_rag.Graph.Frames.{
  file_tables, upsert_entities-file_tables, upsert_relationships-file_tables,
  link_chunks-file_tables,
}
use local_graph_rag.Ingest.Pipeline.{
  File, match_entity_chunks, relationship_rows, write_some, extract_for, write_graph,
}

-- A predicate that no change of the other tables breaks.
pub record Kept (I : World → Type 0) : Type 0 where
  pub on_store :
      (w : World) (s : Store)
      → file_tables s ≡ file_tables w.store
      → I w
      → I (record (next w) { store = s })
  pub on_next : (w : World) → I w → I (next w)

module _ {I : World → Type 0} (k : Kept I) where
  write-Kept :
      (op : Store → Option Store)
      → ((s s' : Store) → op s ≡ some s' → file_tables s' ≡ file_tables s)
      → Triple I (write op) (λ _ w. I w) I
  write-Kept op same = Triple-write op (λ w s h e. k.on_store w s (same w.store s e) h) k.on_next

  cache_extraction-Kept : (row : CacheRow) → Triple I (write (cache_extraction row)) (λ _ w. I w) I
  unfolding cache_extraction insert_cached
  cache_extraction-Kept row = write-Kept (cache_extraction row) same
    where
      same : (s s' : Store) → cache_extraction row s ≡ some s' → file_tables s' ≡ file_tables s
      same s s' e = ap file_tables (statement-result (insert_cached row) s s' e).0

  extract_batch-Kept :
      (outside : Outside) (prompt : Str) (i : ℕ) (filepath sha : Str)
      → Triple I (extract_batch outside prompt i filepath sha) (λ _ w. I w) I
  unfolding extract_batch
  extract_batch-Kept outside prompt i filepath sha = elim (Option-cases (outside.generate prompt)) [
    | inl e ↦ rw (e, extract_batch) (record { at = λ w t. t })
    | inr (response, e) ↦
        rw (e, extract_batch)
          (Triple-bind (λ _ w. I w)
            (cache_extraction-Kept (record {
              filepath = filepath;
              batch_index = i;
              prompt_sha256 = sha;
              result = response;
            }))
            (λ _. Triple-pure (parse_extraction_response outside response)))
  ]

  load_or_extract_batch-Kept :
      (outside : Outside) (batch : Str) (i : ℕ) (filepath : Str)
      → Triple I (load_or_extract_batch outside batch i filepath) (λ _ w. I w) I
  unfolding load_or_extract_batch
  load_or_extract_batch-Kept outside batch i filepath =
      Triple-bind (λ _ w. I w)
        (Triple-gets (get_cached_extraction filepath i (outside.request_sha256 (prompt_for batch))))
        by_cached
    where
      by_cached :
          (cached : Option Str)
          → Triple I
              (elim cached [
                | some reply ↦ pure (parse_extraction_response outside reply)
                | none ↦
                    extract_batch outside
                      (prompt_for batch)
                      i
                      filepath
                      (outside.request_sha256 (prompt_for batch))
              ])
              (λ _ w. I w)
              I
      by_cached none =
          extract_batch-Kept outside (prompt_for batch) i filepath
            (outside.request_sha256 (prompt_for batch))
      by_cached (some reply) = Triple-pure (parse_extraction_response outside reply)

  attempt-Kept : (r : Outcome Reply × World) → Post (λ _ w. I w) I r → I (attempt r).1
  attempt-Kept (done reply, w) t = t
  attempt-Kept (raised, w) t = t

  extract_from-Kept :
      (outside : Outside) (filepath : Str) (batches : List Str) (i : ℕ) (w : World)
      → I w
      → I (extract_from outside filepath i batches w).1
  unfolding extract_from
  extract_from-Kept outside filepath [] i w t = t
  extract_from-Kept outside filepath (batch ∷ batches) i w t =
      extract_from-Kept outside filepath batches (i + 1) _ (
        attempt-Kept (load_or_extract_batch outside batch i filepath w)
          ((load_or_extract_batch-Kept outside batch i filepath).at w t))

  extract-Kept :
      (outside : Outside) (cfg : Settings) (chunks : List Str) (filepath : Str)
      → Triple I (extract_entities_for_file outside cfg chunks filepath) (λ _ w. I w) I
  unfolding extract_entities_for_file
  extract-Kept outside cfg [] filepath = record { at = λ w t. t }
  extract-Kept outside cfg (c ∷ cs) filepath = record {
    at = λ w t. extract_from-Kept outside filepath (build_batches cfg (c ∷ cs)) 0 w t;
  }

  pub extract_for-Kept :
      (outside : Outside) (cfg : Settings) (file : File) (points : List Point)
      → Triple I (extract_for outside cfg file points) (λ _ w. I w) I
  unfolding extract_for
  extract_for-Kept outside cfg file points =
      Triple-if file.is_history (Triple-pure empty_result)
        (extract-Kept outside cfg (map (λ p. p.text) points) file.filepath)

  write_some-Kept :
      {A : Type 0} (op : List A → Store → Option Store) (rows : List A)
      → ((s s' : Store) → op rows s ≡ some s' → file_tables s' ≡ file_tables s)
      → Triple I (write_some op rows) (λ _ w. I w) I
  unfolding write_some
  write_some-Kept op rows same =
      Triple-if (is_empty rows) (Triple-pure tt) (write-Kept (op rows) same)

  pub write_graph-Kept :
      {Q : World → Type 0} (outside : Outside) (file : File) (points : List Point)
      (current_hash : Str) (result : ExtractionResult)
      → Triple I
          (if result.had_failure then pure tt else write (upsert_hash file.filepath current_hash))
          (λ _ w. Q w)
          I
      → Triple I (write_graph outside file points current_hash result) (λ _ w. Q w) I
  unfolding write_graph
  write_graph-Kept {Q} outside file points current_hash result last =
      Triple-bind (λ _ w. I w)
        (Triple-write_for (upsert_entities result.entities file.filepath)
          (λ w ids s h e.
            k.on_store w s
              (upsert_entities-file_tables result.entities file.filepath w.store ids s e) h)
          k.on_next)
        (λ entity_ids.
          let rels = relationship_rows file.filepath result.relationships in
          let links = match_entity_chunks outside points result.entities entity_ids in
          Triple-bind (λ _ w. I w)
            (write_some-Kept upsert_relationships rels (upsert_relationships-file_tables rels))
            (λ _.
              Triple-bind (λ _ w. I w)
                (write_some-Kept link_chunks links (link_chunks-file_tables links))
                (λ _. Triple-bind (λ _ w. Q w) last (λ _. Triple-pure result))))
