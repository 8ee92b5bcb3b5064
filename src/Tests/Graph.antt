-- ===== src/Tests/Graph.antt =====
-- The graph store on a small database: one file with a chunk, two entities and a relationship.
use local_graph_rag.Prelude.{
  ap, ◌==◌, nat_eq, list_eq, ◌≢◌, ◌≡◌, refl, true, false, none, some, List, [], ◌∷◌, map, All,
  is_empty, length, ◌≤◌, inl, inr,
}
use local_graph_rag.Prelude.Text.{Str, codes, strip, lower}
use local_graph_rag.Outside.{str, Fields, end, field}
use local_graph_rag.Graph.Slug.{slugify}
use local_graph_rag.Graph.Slug.Idempotent.{slugify-idempotent}
use local_graph_rag.Graph.Tables.{
  statement, CacheRow, Entity, Relationship, ChunkRow, ChunkEntity, Store, has_entity,
  foreign_keys_hold,
}
use local_graph_rag.Graph.Integrity.{IsSound, IsSound-of_keys}
use local_graph_rag.Graph.Records.{EntityInput, upsert_entities}
use local_graph_rag.Graph.Records.Steps.{Extends}
use local_graph_rag.Graph.Records.Totality.{AllNamed, upsert_entities-total}
use local_graph_rag.Graph.Deletes.{delete_file_rows, is_referenced}
use local_graph_rag.Graph.Deletes.Totality.{file_deleted, delete_file_rows-total}
use local_graph_rag.Graph.Deletes.Orphans.{AllReferenced, file_deleted-AllReferenced}
use local_graph_rag.Graph.Reads.{insert_cached, cache_extraction, set_fingerprint, upsert_hash}
use local_graph_rag.Graph.Extractor.{by_slug_from, named_of, normalize_extraction_result}
use local_graph_rag.Graph.Extractor.Entities.{IsTable, Covers, by_slug-IsTable}
use local_graph_rag.Graph.Extractor.Endpoints.{slugs_of, IsAnchored, normalize-IsAnchored}
use local_graph_rag.Graph.Neighborhood.{expand_ids}
use local_graph_rag.Graph.Neighborhood.Bounded.{Distinct, expand_ids-bounded}

abbrev path : Str
path = codes "/a.py"

abbrev parser_row : Entity
parser_row = record {
  id = codes "parser";
  name = codes "Parser";
  type = none;
  description = none;
  community = some 1;
}

abbrev lexer_row : Entity
lexer_row = record {
  id = codes "lexer";
  name = codes "Lexer";
  type = none;
  description = none;
  community = none;
}

abbrev uses : Relationship
uses = record {
  source_id = codes "parser";
  target_id = codes "lexer";
  label = codes "uses";
  weight = 1;
  source_doc = path;
}

abbrev database : Store
database = record {
  entities = parser_row ∷ lexer_row ∷ [];
  relationships = uses ∷ [];
  chunks = record { chunk_id = codes "c1"; filepath = path; chunk_index = 0 } ∷ [];
  chunk_entities = record { chunk_id = codes "c1"; entity_id = codes "lexer" } ∷ [];
  communities =
      record {
        id = 1;
        summary = codes "parsing";
        entity_ids = codes "parser" ∷ [];
        member_hash = codes "h";
        embedding = [];
      }
      ∷ [];
  extraction_cache =
      record { filepath = path; batch_index = 0; prompt_sha256 = codes "s"; result = codes "{}" }
      ∷ [];
  fingerprints = record { filepath = path; sha256 = codes "f" } ∷ [];
  entity_mentions =
      record {
        entity_id = codes "parser";
        source_doc = codes "/b.md";
        type = none;
        description = none;
      }
      ∷ [];
}

database-IsSound : IsSound database
database-IsSound = IsSound-of_keys database keys
  where
    keys : foreign_keys_hold database ≡ true
    keys = unfold foreign_keys_hold in refl

delete_file_rows-total_example :
    (delete_file_rows path database ≡ some (file_deleted path database))
    × IsSound (file_deleted path database)
delete_file_rows-total_example = delete_file_rows-total path database database-IsSound

database-AllReferenced : AllReferenced database
database-AllReferenced = record {
  at = λ e m.
      unfold is_referenced in
      elim m [ inl e ↦ rw e refl | inr m ↦ elim m [ inl e ↦ rw e refl | inr m ↦ elim m [ ] ] ];
}

file_deleted-AllReferenced_example : AllReferenced (file_deleted path database)
file_deleted-AllReferenced_example = file_deleted-AllReferenced path database database-AllReferenced

abbrev inputs : List EntityInput
inputs = record { name = codes " Tokens "; type = none; description = none } ∷ []

inputs-AllNamed : AllNamed inputs
unfolding slugify strip lower
inputs-AllNamed = (refl, tt)

upsert_entities-total_example :
    (s' : Store) × (upsert_entities inputs path database
      ≡ some (map (λ (e : EntityInput). slugify (strip e.name)) inputs, s'))
    × IsSound s'
    × Extends database s'
    × All (λ id. has_entity s' id ≡ true) (map (λ (e : EntityInput). slugify (strip e.name)) inputs)
upsert_entities-total_example =
    upsert_entities-total inputs path database database-IsSound inputs-AllNamed

abbrev new_chunk : ChunkRow
new_chunk = record { chunk_id = codes "c2"; filepath = path; chunk_index = 1 }

abbrev link : ChunkEntity
link = record { chunk_id = codes "c1"; entity_id = codes "parser" }

abbrev reply_entities : List Fields
reply_entities =
    field (codes "name") (str (codes "Graph Store")) end
    ∷ field (codes "name") (str (codes "graph-store "))
        (field (codes "description") (str (codes "keeps rows")) end)
    ∷ []

by_slug-IsTable_example :
    IsTable (by_slug_from [] reply_entities)
    × All
        (λ entity.
          is_empty (named_of entity).slug ≡ false
          → Covers (by_slug_from [] reply_entities) (named_of entity))
        reply_entities
by_slug-IsTable_example = by_slug-IsTable reply_entities

abbrev reply_relationships : List Fields
reply_relationships =
    field (codes "source") (str (codes "graph store")) (
      field (codes "target") (str (codes "nowhere"))
        (field (codes "label") (str (codes "uses")) end))
    ∷ []

normalize-IsAnchored_example :
    let result = normalize_extraction_result reply_entities reply_relationships false in
    AllNamed result.entities × All (IsAnchored (slugs_of result.entities)) result.relationships
normalize-IsAnchored_example = normalize-IsAnchored reply_entities reply_relationships false

expand_ids-bounded_example :
    Distinct (expand_ids (uses ∷ []) (codes "parser" ∷ codes "parser" ∷ []) 2 20)
    × (length (expand_ids (uses ∷ []) (codes "parser" ∷ codes "parser" ∷ []) 2 20) ≤ 20)
expand_ids-bounded_example =
    expand_ids-bounded (uses ∷ []) (codes "parser" ∷ codes "parser" ∷ []) 2 20

abbrev cached_row : CacheRow
cached_row = record {
  filepath = path;
  batch_index = 0;
  prompt_sha256 = codes "t";
  result = codes "[]";
}

abbrev with_reply : Store
with_reply = record database { extraction_cache = cached_row ∷ [] }

reply-cached : cache_extraction cached_row database ≡ some with_reply
unfolding cache_extraction insert_cached statement foreign_keys_hold
reply-cached = refl

requests_differ : codes "t" ≢ codes "s"
requests_differ e = cc (ap (λ s. s == codes "s") e)

abbrev with_hash : Store
with_hash = record database { fingerprints = record { filepath = path; sha256 = codes "g" } ∷ [] }

hash-upserted : upsert_hash path (codes "g") database ≡ some with_hash
unfolding upsert_hash set_fingerprint statement foreign_keys_hold
hash-upserted = refl

paths_differ : path ≢ codes "/a.pyi"
paths_differ e = cc e

slugify-idempotent_example :
    slugify (slugify (codes " Graph-Store (v2)! ")) ≡ slugify (codes " Graph-Store (v2)! ")
slugify-idempotent_example = slugify-idempotent (codes " Graph-Store (v2)! ")
