-- ===== src/Graph/Records.antt =====
-- src/local_graph_rag/graph/record_store.py: `RecordStoreMixin`. A method that writes is one
-- transaction: none where it raises.
pub mod Steps
pub mod Rows
pub mod Totality
use local_graph_rag.Prelude.{
  ◌+◌, Bool, not, ◌&&◌, Option, none, some, List, [], ◌∷◌, ◌++◌, map, is_empty, keep, any, nat_eq,
  list_eq, ◌==◌, if◌then◌else◌,
}
use local_graph_rag.Prelude.Text.{Str, strip}
use local_graph_rag.Graph.Slug.{slugify}
use local_graph_rag.Graph.Tables.{
  Relationship, ChunkRow, ChunkEntity, Mention, Store, has_entity, statement, each, ◌>>=◌,
}
use local_graph_rag.Graph.Derived.{refresh_entity}

-- An entity as the extractor hands it over.
pub record EntityInput : Type 0 where
  pub name : Str
  pub type : Option Str
  pub description : Option Str

-- INSERT OR IGNORE INTO entities
unfoldable pub insert_entity : Str × Str → Store → Store
insert_entity (slug, name) s = if has_entity s slug then s else record s {
  entities =
      s.entities
      ++ record { id = slug; name = name; type = none; description = none; community = none } ∷ [];
}

abbrev pub same_mention : Mention → Mention → Bool
same_mention m n = m.entity_id == n.entity_id && m.source_doc == n.source_doc

-- _UPSERT_MENTION_SQL
unfoldable pub upsert_mention : Mention → Store → Store
upsert_mention m s = record s {
  entity_mentions =
      if any (same_mention m) s.entity_mentions
      then map (λ n. if same_mention m n then m else n) s.entity_mentions
      else s.entity_mentions ++ m ∷ [];
}

-- _REFRESH_ENTITIES_SQL
unfoldable pub refresh_entities : List Str → Store → Store
unfolding refresh_entity
refresh_entities ids s = record s { entities = map (refresh_entity s ids) s.entities }

-- The rows of `upsert_entities`: none where a name has an empty slug.
unfoldable pub entity_rows : List EntityInput → Option (List (Str × EntityInput))
entity_rows [] = some []
entity_rows (e ∷ es) =
    let name = strip e.name in
    let row : Str × EntityInput = (slugify name, record e { name = name }) in
    let rest = entity_rows es in
    if is_empty (slugify name) then none else do rows ← rest; some (row ∷ rows)

abbrev pub mention_row : Str → Str × EntityInput → Mention
mention_row doc (slug, e) = record {
  entity_id = slug;
  source_doc = doc;
  type = e.type;
  description = e.description;
}

unfoldable pub upsert_entities : List EntityInput → Str → Store → Option (List Str × Store)
unfolding entity_rows each insert_entity upsert_mention refresh_entities statement
upsert_entities entities source_doc s = do
  rows ← entity_rows entities
  s₁ ← each (λ row. insert_entity (row.0, row.1.name)) rows s
  s₂ ← each (λ row. upsert_mention (mention_row source_doc row)) rows s₁
  s₃ ← statement (refresh_entities (map (λ row. row.0) rows)) s₂
  some (map (λ row. row.0) rows, s₃)

abbrev pub same_relationship : Relationship → Relationship → Bool
same_relationship r q =
    r.source_id == q.source_id
    && r.target_id == q.target_id
    && r.label == q.label
    && r.source_doc == q.source_doc

-- _UPSERT_RELATIONSHIP_SQL
unfoldable pub upsert_relationship : Relationship → Store → Store
upsert_relationship r s = record s {
  relationships =
      if any (same_relationship r) s.relationships
      then map (λ q. if same_relationship r q then record q { weight = q.weight + 1 } else q)
          s.relationships
      else s.relationships ++ record r { weight = 1 } ∷ [];
}

unfoldable pub upsert_relationships : List Relationship → Store → Option Store
unfolding each upsert_relationship
upsert_relationships = each upsert_relationship

-- INSERT OR REPLACE INTO chunks
unfoldable pub insert_chunk : ChunkRow → Store → Store
insert_chunk c s = record s {
  chunks = keep (λ d. not (d.chunk_id == c.chunk_id)) s.chunks ++ c ∷ [];
}

unfoldable pub register_chunks : List ChunkRow → Store → Option Store
unfolding each insert_chunk
register_chunks = each insert_chunk

-- INSERT OR IGNORE INTO chunk_entities
unfoldable pub insert_link : ChunkEntity → Store → Store
insert_link l s = record s {
  chunk_entities =
      if any (λ k. k.chunk_id == l.chunk_id && k.entity_id == l.entity_id) s.chunk_entities
      then s.chunk_entities
      else s.chunk_entities ++ l ∷ [];
}

unfoldable pub link_chunks : List ChunkEntity → Store → Option Store
unfolding each insert_link
link_chunks = each insert_link
