-- ===== src/Graph/Tables.antt =====
-- src/local_graph_rag/graph/store.py: the tables of the graph database, and its transactions.
-- A write statement is checked for foreign keys when it ends; a transaction that raises is rolled
-- back. The columns `embedding` of `entities` and `updated_at` of `fingerprints`, which nothing
-- reads, are left out.
use local_graph_rag.Prelude.{
  ℕ, Bool, ◌&&◌, Option, none, some, List, [], ◌∷◌, any, all, nat_eq, list_eq, ◌==◌, if◌then◌else◌,
}
use local_graph_rag.Prelude.Text.{Str}

pub record Entity : Type 0 where
  pub id : Str
  pub name : Str
  pub type : Option Str
  pub description : Option Str
  pub community : Option ℕ

pub record Relationship : Type 0 where
  pub source_id : Str
  pub target_id : Str
  pub label : Str
  pub weight : ℕ
  pub source_doc : Str

pub record ChunkRow : Type 0 where
  pub chunk_id : Str
  pub filepath : Str
  pub chunk_index : ℕ

pub record ChunkEntity : Type 0 where
  pub chunk_id : Str
  pub entity_id : Str

pub record Community : Type 0 where
  pub id : ℕ
  pub summary : Str
  pub entity_ids : List Str
  pub member_hash : Str
  pub embedding : Str

pub record CacheRow : Type 0 where
  pub filepath : Str
  pub batch_index : ℕ
  pub prompt_sha256 : Str
  pub result : Str

pub record Fingerprint : Type 0 where
  pub filepath : Str
  pub sha256 : Str

pub record Mention : Type 0 where
  pub entity_id : Str
  pub source_doc : Str
  pub type : Option Str
  pub description : Option Str

pub record Store : Type 0 where
  pub entities : List Entity
  pub relationships : List Relationship
  pub chunks : List ChunkRow
  pub chunk_entities : List ChunkEntity
  pub communities : List Community
  pub extraction_cache : List CacheRow
  pub fingerprints : List Fingerprint
  pub entity_mentions : List Mention

abbrev pub has_entity : Store → Str → Bool
has_entity s id = any (λ e. e.id == id) s.entities

abbrev pub has_chunk : Store → Str → Bool
has_chunk s id = any (λ c. c.chunk_id == id) s.chunks

-- The REFERENCES clauses of the schema, for one row.
abbrev pub relationship_holds : Store → Relationship → Bool
relationship_holds s r = has_entity s r.source_id && has_entity s r.target_id

abbrev pub link_holds : Store → ChunkEntity → Bool
link_holds s l = has_chunk s l.chunk_id && has_entity s l.entity_id

abbrev pub mention_holds : Store → Mention → Bool
mention_holds s m = has_entity s m.entity_id

-- PRAGMA foreign_keys=ON
unfoldable pub foreign_keys_hold : Store → Bool
foreign_keys_hold s =
    all (relationship_holds s) s.relationships
    && (all (link_holds s) s.chunk_entities && all (mention_holds s) s.entity_mentions)

-- A statement that would leave a dangling reference raises.
unfoldable pub statement : (Store → Store) → Store → Option Store
unfolding foreign_keys_hold
statement update s = if foreign_keys_hold (update s) then some (update s) else none

infixl 5 ◌>>=◌
abbrev pub ◌>>=◌ {ℓ κ} : {A : Type ℓ} {B : Type κ} → Option A → (A → Option B) → Option B
none >>= f = none
some a >>= f = f a

-- The transactions of the store: none raises, and nothing of it is kept.
unfoldable pub each {ℓ} : {A : Type ℓ} → (A → Store → Store) → List A → Store → Option Store
unfolding statement
each update [] s = some s
each update (a ∷ rest) s = do s' ← statement (update a) s; each update rest s'
