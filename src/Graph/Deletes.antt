-- ===== src/Graph/Deletes.antt =====
-- src/local_graph_rag/graph/record_store.py: the deletes of `RecordStoreMixin`. Each method is one
-- transaction: none where it raises.
pub mod Totality
pub mod Orphans
pub mod Purge
use local_graph_rag.Prelude.{
  Bool, not, ◌&&◌, ◌||◌, Option, List, ◌++◌, map, keep, contains, any, nat_eq, list_eq, ◌==◌,
}
use local_graph_rag.Prelude.Text.{Str}
use local_graph_rag.Graph.Tables.{Store, statement, ◌>>=◌}
use local_graph_rag.Graph.Records.{refresh_entities}

-- A chunk id of the file: SELECT chunk_id FROM chunks WHERE filepath = ?
unfoldable pub chunk_of_file : Store → Str → Str → Bool
chunk_of_file s filepath id = any (λ c. c.filepath == filepath && c.chunk_id == id) s.chunks

-- The four SELECTs of _FILE_ENTITY_IDS_SQL.
unfoldable pub mention_ids : Str → Store → List Str
mention_ids filepath s =
    map (λ m. m.entity_id) (keep (λ m. m.source_doc == filepath) s.entity_mentions)

unfoldable pub link_ids : Str → Store → List Str
unfolding chunk_of_file
link_ids filepath s =
    map (λ l. l.entity_id) (keep (λ l. chunk_of_file s filepath l.chunk_id) s.chunk_entities)

unfoldable pub source_ids : Str → Store → List Str
source_ids filepath s =
    map (λ r. r.source_id) (keep (λ r. r.source_doc == filepath) s.relationships)

unfoldable pub target_ids : Str → Store → List Str
target_ids filepath s =
    map (λ r. r.target_id) (keep (λ r. r.source_doc == filepath) s.relationships)

-- _FILE_ENTITY_IDS_SQL
unfoldable pub file_entity_ids : Str → Store → List Str
unfolding mention_ids link_ids source_ids target_ids
file_entity_ids filepath s =
    mention_ids filepath s
    ++ (link_ids filepath s ++ (source_ids filepath s ++ target_ids filepath s))

-- The negation of UNREFERENCED_ENTITY_SQL.
unfoldable pub is_referenced : Store → Str → Bool
is_referenced s id =
    any (λ m. m.entity_id == id) s.entity_mentions
    || (any (λ r. r.source_id == id) s.relationships
        || (any (λ r. r.target_id == id) s.relationships
            || any (λ ce. ce.entity_id == id) s.chunk_entities))

unfoldable pub delete_links : Str → Store → Store
unfolding chunk_of_file
delete_links filepath s = record s {
  chunk_entities = keep (λ ce. not (chunk_of_file s filepath ce.chunk_id)) s.chunk_entities;
}

unfoldable pub delete_chunks : Str → Store → Store
delete_chunks filepath s = record s { chunks = keep (λ c. not (c.filepath == filepath)) s.chunks }

unfoldable pub delete_relationships : Str → Store → Store
delete_relationships filepath s = record s {
  relationships = keep (λ r. not (r.source_doc == filepath)) s.relationships;
}

unfoldable pub delete_mentions : Str → Store → Store
delete_mentions filepath s = record s {
  entity_mentions = keep (λ m. not (m.source_doc == filepath)) s.entity_mentions;
}

unfoldable pub delete_unreferenced : List Str → Store → Store
unfolding is_referenced
delete_unreferenced touched s = record s {
  entities = keep (λ e. not (contains e.id touched) || is_referenced s e.id) s.entities;
}

unfoldable pub delete_fingerprint : Str → Store → Store
delete_fingerprint filepath s = record s {
  fingerprints = keep (λ f. not (f.filepath == filepath)) s.fingerprints;
}

-- _delete_file_rows
unfoldable pub delete_file_rows : Str → Store → Option Store
unfolding file_entity_ids statement delete_links delete_chunks delete_relationships delete_mentions
    delete_unreferenced refresh_entities delete_fingerprint
delete_file_rows filepath s = do
  let touched = file_entity_ids filepath s
  s₁ ← statement (delete_links filepath) s
  s₂ ← statement (delete_chunks filepath) s₁
  s₃ ← statement (delete_relationships filepath) s₂
  s₄ ← statement (delete_mentions filepath) s₃
  s₅ ← statement (delete_unreferenced touched) s₄
  s₆ ← statement (refresh_entities touched) s₅
  statement (delete_fingerprint filepath) s₆

unfoldable pub delete_file_data : Str → Store → Option Store
unfolding delete_file_rows
delete_file_data = delete_file_rows

unfoldable pub delete_cached : Str → Store → Store
delete_cached filepath s = record s {
  extraction_cache = keep (λ c. not (c.filepath == filepath)) s.extraction_cache;
}

unfoldable pub purge_file : Str → Store → Option Store
unfolding delete_file_rows delete_cached statement
purge_file filepath s = do s' ← delete_file_rows filepath s; statement (delete_cached filepath) s'
