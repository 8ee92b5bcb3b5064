-- ===== src/Graph/Summaries.antt =====
-- src/local_graph_rag/graph/summarizer.py: the summaries of communities, here the hash of a community and the prompt.
pub mod Hash
pub mod Run
pub mod Reuse
pub mod Settled
pub mod Asking
pub mod Again
use local_graph_rag.Prelude.{
  ℕ, zero, suc, ◌+◌, ◌-◌, ◌/◌, ◌%◌, Bool, true, false, not, ◌&&◌, ◌||◌, Option, none, some, List,
  [], ◌∷◌, ◌++◌, map, flatten, length, take, is_empty, ltb, leb, nat_eqb, nat_eq, list_eq, ◌==◌,
  if◌then◌else◌,
}
use local_graph_rag.Prelude.Text.{Str, codes, join, strip}
use local_graph_rag.Graph.Tables.{Entity, Community, Store, ◌>>=◌}
use local_graph_rag.Graph.Derived.{str_ltb, count_of}
use local_graph_rag.Graph.Reads.{sort_by}
use local_graph_rag.Graph.Reads.Ordering.{is_ordered}
use local_graph_rag.Graph.Neighborhood.{Edge, then_by, is_label_sorted}
use local_graph_rag.Rag.Prompt.{or_text, name_of}

-- f"{e['id']}\x1f{e.get('type') or ''}\x1f{e.get('description') or ''}"
unfoldable pub entity_key : Entity → Str
entity_key e =
    flatten (e.id ∷ (31 ∷ []) ∷ or_text e.type [] ∷ (31 ∷ []) ∷ or_text e.description [] ∷ [])

unfoldable pub relationship_key : Edge → Str
relationship_key r = flatten (r.source_id ∷ (31 ∷ []) ∷ r.target_id ∷ (31 ∷ []) ∷ r.label ∷ [])

-- `_compute_member_hash`, for a digest
unfoldable pub compute_member_hash : (Str → Str) → List Entity → List Edge → Str
unfolding entity_key relationship_key
compute_member_hash sha256 entities relationships = sha256 (
    join (codes "\n") (
      sort_by is_ordered (map entity_key entities)
      ++ (codes "---" ∷ sort_by is_ordered (map relationship_key relationships))))

-- str(n): the digits of a number; each takes one of the fuel, which is the number plus one.
unfoldable pub digits_of : ℕ → ℕ → Str → Str
digits_of zero n after = after
digits_of (suc fuel) n after =
    let more = digits_of fuel (n / 10) ((n % 10 + 48) ∷ after) in
    if ltb n 10 then (n + 48) ∷ after else more

unfoldable pub decimal : ℕ → Str
unfolding digits_of
decimal n = digits_of (n + 1) n []

-- _MAX_SUMMARY_ENTITIES, _MAX_SUMMARY_RELATIONSHIPS and _MAX_DESCRIPTION_CHARS
abbrev pub max_summary_entities : ℕ
max_summary_entities = 40

abbrev pub max_summary_relationships : ℕ
max_summary_relationships = 60

abbrev pub max_description_chars : ℕ
max_description_chars = 300

-- The number of ends that an entity has among the relationships.
unfoldable pub degree_of : List Edge → Str → ℕ
unfolding count_of
degree_of relationships id =
    count_of id (map (λ r. r.source_id) relationships)
    + count_of id (map (λ r. r.target_id) relationships)

-- key=lambda e: (-degree[e["id"]], e["id"])
unfoldable pub is_better_connected : List Edge → Entity → Entity → Bool
unfolding degree_of str_ltb
is_better_connected relationships a b =
    let m = degree_of relationships a.id in
    let n = degree_of relationships b.id in then_by (ltb n m) (ltb m n) (not (str_ltb b.id a.id))

-- key=lambda r: (-r["weight"], r["source_id"], r["target_id"], r["label"])
unfoldable pub is_heavier : Edge → Edge → Bool
unfolding str_ltb
is_heavier a b = then_by (ltb b.weight a.weight) (ltb a.weight b.weight) (is_label_sorted a b)

unfoldable pub shown_line : Entity → Str
shown_line e = flatten (
    codes "- "
    ∷ e.name
    ∷ codes " ("
    ∷ or_text e.type (codes "unknown")
    ∷ codes "): "
    ∷ take max_description_chars (or_text e.description [])
    ∷ [])

unfoldable pub edge_line : List Entity → Edge → Str
edge_line entities r = flatten (
    codes "- "
    ∷ name_of entities r.source_id
    ∷ codes " --["
    ∷ r.label
    ∷ codes "]--> "
    ∷ name_of entities r.target_id
    ∷ [])

-- The entities that the prompt shows.
unfoldable pub shown_entities : List Entity → List Edge → List Entity
unfolding sort_by is_better_connected
shown_entities entities relationships =
    take max_summary_entities (sort_by (is_better_connected relationships) entities)

-- The line on the entities that are not shown, if there are any.
unfoldable pub rest_line : ℕ → ℕ → List Str
unfolding decimal
rest_line all shown =
    if ltb shown all
    then flatten (codes "- ... and " ∷ decimal (all - shown) ∷ codes " more" ∷ []) ∷ []
    else []

unfoldable pub entity_block : List Entity → List Edge → Str
unfolding shown_entities shown_line rest_line
entity_block entities relationships =
    let shown = shown_entities entities relationships in
    codes "Entities:\n"
    ++ join (codes "\n") (map shown_line shown ++ rest_line (length entities) (length shown))

unfoldable pub relationship_block : List Entity → List Edge → Str
unfolding sort_by is_heavier edge_line
relationship_block entities relationships =
    let heaviest = take max_summary_relationships (sort_by is_heavier relationships) in
    if is_empty heaviest
    then []
    else flatten (
        codes "Relationships:\n"
        ∷ join (codes "\n") (map (edge_line entities) heaviest)
        ∷ codes "\n"
        ∷ [])

-- _build_summary_prompt
unfoldable pub build_summary_prompt : List Entity → List Edge → Str
unfolding entity_block relationship_block
build_summary_prompt entities relationships = flatten (
    codes "You are summarizing a knowledge graph community for retrieval-augmented generation.\n\n"
    ∷ entity_block entities relationships
    ∷ codes "\n\n"
    ∷ relationship_block entities relationships
    ∷ codes
        "\nWrite a concise summary (3-5 sentences) of what this community is about, the key entities and their roles, and how they relate to each other.\n\nSummary:"
    ∷ [])
