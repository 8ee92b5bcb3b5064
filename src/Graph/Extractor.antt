-- ===== src/Graph/Extractor.antt =====
-- src/local_graph_rag/graph/extractor.py: replies are parsed, entities and relationships are
-- normalised, and chunks are put into batches.
pub mod Entities
pub mod Endpoints
pub mod Batches
use local_graph_rag.Prelude.{
  ℕ, suc, ◌+◌, ◌/◌, Bool, true, false, not, ◌&&◌, ◌||◌, Option, none, some, List, [], ◌∷◌, ◌++◌,
  map, length, is_empty, any, contains, ltb, nat_eqb, nat_eq, list_eq, ◌==◌, is_some, if◌then◌else◌,
}
use local_graph_rag.Prelude.Text.{Str, codes, strip, join}
use local_graph_rag.Settings.{Settings}
use local_graph_rag.Outside.{
  Json, null, bool, num, str, arr, obj, Items, nil, cons, Fields, get_field, Outside,
}
use local_graph_rag.Graph.Slug.{slugify}
use local_graph_rag.Graph.Records.{EntityInput}

pub record RelationshipInput : Type 0 where
  pub source : Str
  pub target : Str
  pub label : Str

-- The lists of dictionaries in a parsed reply.
pub record Reply : Type 0 where
  pub entities : List Fields
  pub relationships : List Fields

abbrev pub empty_reply : Reply
empty_reply = record { entities = []; relationships = [] }

pub record ExtractionResult : Type 0 where
  pub entities : List EntityInput
  pub relationships : List RelationshipInput
  pub had_failure : Bool
  pub relationships_extracted : ℕ

abbrev pub empty_result : ExtractionResult
empty_result = record {
  entities = [];
  relationships = [];
  had_failure = false;
  relationships_extracted = 0;
}

-- _estimate_tokens
pub estimate_tokens : Str → ℕ
estimate_tokens text = length text / 4

-- `re.search(r"\{.*\}", text, re.DOTALL)`: from the first `{` to the last `}` after it, if any.
pub upto_last : ℕ → Str → Option Str
upto_last c [] = none
upto_last c (d ∷ ds) = elim (upto_last c ds) [
  | some rest ↦ some (d ∷ rest)
  | none ↦ if nat_eqb c d then some (d ∷ []) else none
]

pub braces : Str → Option Str
unfolding upto_last
braces [] = none
braces (c ∷ cs) =
    let later = braces cs in
    let here : Option Str = elim (upto_last 125 cs) [ none ↦ none | some rest ↦ some (c ∷ rest) ] in
    if nat_eqb c 123 then here else later

-- _as_dict_list
pub dicts_of : Items → List Fields
dicts_of nil = []
dicts_of (cons (obj fields) items) = fields ∷ dicts_of items
dicts_of (cons null items) = dicts_of items
dicts_of (cons (bool b) items) = dicts_of items
dicts_of (cons (num n) items) = dicts_of items
dicts_of (cons (str s) items) = dicts_of items
dicts_of (cons (arr xs) items) = dicts_of items

pub as_dict_list : Option Json → List Fields
unfolding dicts_of
as_dict_list (some (arr items)) = dicts_of items
as_dict_list _ = []

-- _dict_to_result
pub dict_to_result : Json → Reply
unfolding as_dict_list
dict_to_result (obj fields) = record {
  entities = as_dict_list (get_field (codes "entities") fields);
  relationships = as_dict_list (get_field (codes "relationships") fields);
}
dict_to_result _ = empty_reply

-- _parse_extraction_response: the whole text, then its outermost block.
pub parse_extraction_response : Outside → Str → Reply
unfolding braces dict_to_result
parse_extraction_response outside response =
    let text = strip response in
    elim (outside.loads text) [
      | some value ↦ dict_to_result value
      | none ↦ elim (outside.loads (elim (braces text) [ none ↦ [] | some block ↦ block ])) [
        | some value ↦ dict_to_result value
        | none ↦ empty_reply
      ]
    ]

-- _text
pub text_of : Option Json → Str
text_of (some (str s)) = strip s
text_of _ = []

-- `_text(...) or None`
pub or_none : Str → Option Str
or_none [] = none
or_none (c ∷ cs) = some (c ∷ cs)

-- `max(a, b, key=len)`: the first of the longest.
pub longest : Str → Str → Str
longest a b = if ltb (length a) (length b) then b else a

-- An entry of `by_slug`, with its key.
pub record Named : Type 0 where
  pub slug : Str
  pub name : Str
  pub type : Option Str
  pub description : Str

-- The branch for a slug that is there.
pub merge_named : Named → Named → Named
unfolding longest
merge_named e existing = record existing {
  description = longest existing.description e.description;
  type = if is_some existing.type then existing.type else e.type;
}

-- One round of the loop of `_normalize_entities`.
pub add_named : Named → List Named → List Named
unfolding merge_named
add_named e [] = e ∷ []
add_named e (x ∷ xs) =
    let rest = add_named e xs in if x.slug == e.slug then merge_named e x ∷ xs else x ∷ rest

pub named_of : Fields → Named
unfolding text_of or_none
named_of entity =
    let name = text_of (get_field (codes "name") entity) in
    record {
      slug = slugify name;
      name = name;
      type = or_none (text_of (get_field (codes "type") entity));
      description = text_of (get_field (codes "description") entity);
    }

-- The loop of `_normalize_entities`, over `by_slug`.
pub by_slug_from : List Named → List Fields → List Named
unfolding add_named named_of
by_slug_from by_slug [] = by_slug
by_slug_from by_slug (entity ∷ entities) =
    by_slug_from
      (if is_empty (named_of entity).slug then by_slug else add_named (named_of entity) by_slug)
      entities

abbrev pub input_of : Named → EntityInput
input_of e = record { name = e.name; type = e.type; description = some e.description }

-- _normalize_entities: the entities, and the set of their slugs.
pub normalize_entities : List Fields → List EntityInput × List Str
unfolding by_slug_from
normalize_entities entities =
    let by_slug = by_slug_from [] entities in (map input_of by_slug, map (λ e. e.slug) by_slug)

-- The tests of `_normalize_relationships` on one relationship.
pub keeps_relationship : List Str → RelationshipInput → Bool
keeps_relationship valid_slugs r =
    not (is_empty r.source)
    && not (is_empty r.target)
    && not (is_empty r.label)
    && (contains (slugify r.source) valid_slugs && contains (slugify r.target) valid_slugs)

pub relationship_of : Fields → RelationshipInput
unfolding text_of
relationship_of rel = record {
  source = text_of (get_field (codes "source") rel);
  target = text_of (get_field (codes "target") rel);
  label = text_of (get_field (codes "label") rel);
}

-- _normalize_relationships
pub normalize_relationships : List Fields → List Str → List RelationshipInput
unfolding keeps_relationship relationship_of
normalize_relationships [] valid_slugs = []
normalize_relationships (rel ∷ rels) valid_slugs =
    (if keeps_relationship valid_slugs (relationship_of rel) then relationship_of rel ∷ [] else [])
    ++ normalize_relationships rels valid_slugs

-- _normalize_extraction_result
pub normalize_extraction_result : List Fields → List Fields → Bool → ExtractionResult
unfolding normalize_entities normalize_relationships
normalize_extraction_result entities relationships had_failure =
    let (normalized, valid_slugs) = normalize_entities entities in
    record {
      entities = normalized;
      relationships = normalize_relationships relationships valid_slugs;
      had_failure = had_failure;
      relationships_extracted = length relationships;
    }

-- The test of `_build_batches` for a batch that has no room for the next chunk.
pub is_batch_full : Settings → List Str → ℕ → Str → Bool
unfolding estimate_tokens
is_batch_full cfg current tokens chunk =
    not (is_empty current) && ltb cfg.extract_batch_tokens (tokens + estimate_tokens chunk)

-- The loop of `_build_batches`, each batch still a list of its chunks.
pub batches_from : Settings → List Str → ℕ → List Str → List (List Str)
unfolding estimate_tokens
batches_from cfg current tokens [] = if is_empty current then [] else current ∷ []
batches_from cfg current tokens (chunk ∷ chunks) =
    let full = is_batch_full cfg current tokens chunk in
    (if full then current ∷ [] else [])
    ++ batches_from cfg ((if full then [] else current) ++ chunk ∷ [])
        ((if full then 0 else tokens) + estimate_tokens chunk) chunks

-- _build_batches
pub build_batches : Settings → List Str → List Str
unfolding batches_from
build_batches cfg chunks = map (join (codes "\n\n---\n\n")) (batches_from cfg [] 0 chunks)
