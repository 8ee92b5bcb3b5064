-- ===== src/Ingest/Pipeline.antt =====
-- src/local_graph_rag/ingest/index_documents.py: one file through the pipeline, the removal of stale
-- files, and the run over all files.
pub mod Tracked
pub mod Registered
pub mod Kept
pub mod Fingerprints
pub mod Invariant
use local_graph_rag.Prelude.{
  ℕ, suc, ◌+◌, Bool, true, false, not, ◌&&◌, ◌||◌, Option, none, some, List, [], ◌∷◌, ◌++◌, map,
  flatten, length, is_empty, keep, contains, ltb, nat_eq, list_eq, ◌==◌, if◌then◌else◌,
}
use local_graph_rag.Prelude.Text.{Str, strip}
use local_graph_rag.Settings.{Settings}
use local_graph_rag.Outside.{Outside}
use local_graph_rag.Graph.Slug.{slugify}
use local_graph_rag.Graph.Tables.{Relationship, ChunkRow, ChunkEntity, Store}
use local_graph_rag.Graph.Records.{
  EntityInput, upsert_entities, upsert_relationships, register_chunks, link_chunks,
}
use local_graph_rag.Graph.Deletes.{delete_file_data, purge_file}
use local_graph_rag.Graph.Reads.{
  get_hash, upsert_hash, get_chunks_for_file, list_all_paths, sort_by,
}
use local_graph_rag.Graph.Derived.{str_ltb}
use local_graph_rag.Graph.Extractor.{RelationshipInput, ExtractionResult, empty_result}
use local_graph_rag.Ingest.PythonCode.{Chunk, chunk_document}
use local_graph_rag.Ingest.World.{
  Point, World, Outcome, done, raised, M, pure, raise, ◌>>=◌, ◌>>◌, gets, write_for, write,
  delete_points, upsert_points, call,
}
use local_graph_rag.Ingest.Extraction.{extract_entities_for_file}

-- A file as the run finds it: its normalised path and suffix, what `_hash_file` and `_read_file`
-- return, and whether it lies under GIT_HISTORY_DIR.
pub record File : Type 0 where
  pub filepath : Str
  pub suffix : Str
  pub sha256 : Option Str
  pub text : Option Str
  pub is_history : Bool

pub data Status : Type 0 where
  indexed skipped failed : Status

-- The comprehension of `_chunk_file`.
unfoldable pub stripped_chunks : List Chunk → List Chunk
stripped_chunks chunks =
    map (λ c. (strip c.0, c.1)) (keep (λ (c : Chunk). not (is_empty (strip c.0))) chunks)

-- _chunk_file, none where it raises
unfoldable pub chunk_file : Outside → Settings → File → Str → Option (List Chunk)
unfolding stripped_chunks
chunk_file outside cfg file text = elim (chunk_document outside.parse_python cfg file.suffix text) [
  | none ↦ none
  | some chunks ↦ some (stripped_chunks chunks)
]

-- _build_points, from chunk number `i` on; `ids` gives the uuid of each chunk
unfoldable pub build_points : (ℕ → Str) → Str → ℕ → List Chunk → List Point
build_points ids filepath i [] = []
build_points ids filepath i ((text, def_name) ∷ chunks) =
    record { id = ids i; text = text; filepath = filepath; chunk_index = i; def_name = def_name }
    ∷ build_points ids filepath (i + 1) chunks

-- _MIN_ENTITY_NAME_CHARS
abbrev pub min_entity_name_chars : ℕ
min_entity_name_chars = 3

-- The pairs of `_match_entity_chunks` for one entity.
unfoldable pub match_one : Outside → List Point → EntityInput × Str → List ChunkEntity
match_one outside points (entity, entity_id) =
    if ltb (length (strip entity.name)) min_entity_name_chars
    then []
    else map (λ (p : Point). record { chunk_id = p.id; entity_id = entity_id })
        (keep (λ (p : Point). outside.word_search (strip entity.name) p.text) points)

-- zip(entities, entity_ids, strict=True)
unfoldable pub zip_ids : List EntityInput → List Str → List (EntityInput × Str)
zip_ids [] ids = []
zip_ids (e ∷ es) [] = []
zip_ids (e ∷ es) (id ∷ ids) = (e, id) ∷ zip_ids es ids

-- _match_entity_chunks
unfoldable pub match_entity_chunks :
    Outside → List Point → List EntityInput → List Str → List ChunkEntity
unfolding match_one zip_ids
match_entity_chunks outside points entities entity_ids =
    flatten (map (match_one outside points) (zip_ids entities entity_ids))

abbrev pub chunk_rows : List Point → List ChunkRow
chunk_rows points =
    map (λ p. record { chunk_id = p.id; filepath = p.filepath; chunk_index = p.chunk_index }) points

abbrev pub relationship_rows : Str → List RelationshipInput → List Relationship
relationship_rows filepath rels =
    map
      (λ r. record {
        source_id = slugify r.source;
        target_id = slugify r.target;
        label = r.label;
        weight = 1;
        source_doc = filepath;
      })
      rels

-- A batch method that returns at once when it is given nothing.
unfoldable pub write_some : {A : Type 0} → (List A → Store → Option Store) → List A → M (Unit {0})
write_some op rows = if is_empty rows then pure tt else write (op rows)

-- The extraction, which git histories skip.
unfoldable pub extract_for : Outside → Settings → File → List Point → M ExtractionResult
extract_for outside cfg file points =
    if file.is_history
    then pure empty_result
    else extract_entities_for_file outside cfg (map (λ p. p.text) points) file.filepath

-- `_write_index_data` after the extraction
unfoldable pub write_graph :
    Outside → File → List Point → Str → ExtractionResult → M ExtractionResult
unfolding write_some match_entity_chunks
write_graph outside file points current_hash result = do
  entity_ids ← write_for (upsert_entities result.entities file.filepath)
  write_some upsert_relationships (relationship_rows file.filepath result.relationships)
  write_some link_chunks (match_entity_chunks outside points result.entities entity_ids)
  if result.had_failure then pure tt else write (upsert_hash file.filepath current_hash)
  pure result

-- _write_index_data
unfoldable pub write_index_data : Outside → Settings → File → List Point → Str → M ExtractionResult
unfolding extract_for write_graph
write_index_data outside cfg file points current_hash = do
  write (register_chunks (chunk_rows points))
  upsert_points points
  result ← extract_for outside cfg file points
  write_graph outside file points current_hash result

-- _delete_vectors
unfoldable pub delete_vectors : Str → M (Unit {0})
delete_vectors filepath = do
  prior_ids ← gets (get_chunks_for_file filepath)
  if is_empty prior_ids then pure tt else delete_points prior_ids

-- _cleanup_changed_file
unfoldable pub cleanup_changed_file : Str → M (Unit {0})
unfolding delete_vectors
cleanup_changed_file filepath = do delete_vectors filepath; write (delete_file_data filepath)

-- `_index_file` once the text has been chunked
unfoldable pub index_chunks : Outside → Settings → (ℕ → Str) → File → Str → List Chunk → M Status
unfolding cleanup_changed_file write_index_data build_points
index_chunks outside cfg ids file current_hash [] = do
  cleanup_changed_file file.filepath
  write (upsert_hash file.filepath current_hash)
  pure skipped
index_chunks outside cfg ids file current_hash (c ∷ cs) = do
  call
  cleanup_changed_file file.filepath
  write_index_data outside cfg file (build_points ids file.filepath 0 (c ∷ cs)) current_hash
  pure indexed

-- `_index_file` from the outcome of `_chunk_file` on
unfoldable pub index_chunked :
    Outside → Settings → (ℕ → Str) → File → Str → Option (List Chunk) → M Status
unfolding index_chunks
index_chunked outside cfg ids file current_hash none = raise
index_chunked outside cfg ids file current_hash (some chunks) =
    index_chunks outside cfg ids file current_hash chunks

-- `_index_file` on a file whose fingerprint differs
unfoldable pub index_text : Outside → Settings → (ℕ → Str) → File → Str → Option Str → M Status
unfolding index_chunked chunk_file
index_text outside cfg ids file current_hash none = pure failed
index_text outside cfg ids file current_hash (some text) =
    index_chunked outside cfg ids file current_hash (chunk_file outside cfg file text)

-- `current_hash == store.get_hash(filepath)`
abbrev pub is_current : Str → Option Str → Bool
is_current current_hash none = false
is_current current_hash (some old) = old == current_hash

-- _index_file
unfoldable pub index_hashed : Outside → Settings → (ℕ → Str) → File → Option Str → M Status
unfolding index_text
index_hashed outside cfg ids file none = pure failed
index_hashed outside cfg ids file (some current_hash) = do
  known ← gets (get_hash file.filepath)
  if is_current current_hash known
      then pure skipped
      else index_text outside cfg ids file current_hash file.text

unfoldable pub index_file : Outside → Settings → (ℕ → Str) → File → M Status
unfolding index_hashed
index_file outside cfg ids file = index_hashed outside cfg ids file file.sha256

-- The loop over the stale paths.
pub remove_stale : List Str → M (Unit {0})
unfolding delete_vectors
remove_stale [] = pure tt
remove_stale (path ∷ stale) = do delete_vectors path; write (purge_file path); remove_stale stale

pub record Counts : Type 0 where
  pub indexed_count : ℕ
  pub skipped_count : ℕ
  pub failed_count : ℕ

pub count_status : Outcome Status → Counts → Counts
count_status (done indexed) c = record c { indexed_count = c.indexed_count + 1 }
count_status (done skipped) c = record c { skipped_count = c.skipped_count + 1 }
count_status (done failed) c = record c { failed_count = c.failed_count + 1 }
count_status raised c = record c { failed_count = c.failed_count + 1 }

-- The loop over the files: an exception counts one failed file.
pub index_all : Outside → Settings → List (File × (ℕ → Str)) → Counts → World → Counts × World
unfolding index_file count_status
index_all outside cfg [] counts w = (counts, w)
index_all outside cfg ((file, ids) ∷ files) counts w =
    let (outcome, w') = index_file outside cfg ids file w in
    index_all outside cfg files (count_status outcome counts) w'

-- The stale paths of `main`: those in the store that are not on disk, and not under a path that
-- could not be scanned.
unfoldable pub stale_paths : (Str → Bool) → List Str → Store → List Str
unfolding sort_by str_ltb
stale_paths is_under_unscanned on_disk s =
    sort_by (λ a b. not (str_ltb b a))
      (keep (λ p. not (contains p on_disk) && not (is_under_unscanned p)) (list_all_paths s))
