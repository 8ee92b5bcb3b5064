-- ===== src/Rag/Local.antt =====
-- src/local_graph_rag/rag/local_retrieval.py: what a local retrieval puts together. The answers of Qdrant
-- and the word characters of the regular expressions are parameters.
pub mod Texts
use local_graph_rag.Prelude.{
  ℕ, ◌+◌, ◌*◌, Bool, true, false, not, ◌&&◌, ◌||◌, Option, none, some, List, [], ◌∷◌, ◌++◌, map,
  flatten, keep, all, any, take, contains, is_empty, leb, nat_eq, list_eq, ◌==◌, nat_eqb,
  if◌then◌else◌, is_some,
}
use local_graph_rag.Prelude.Text.{Str, codes}
use local_graph_rag.Graph.Tables.{Store}
use local_graph_rag.Graph.Reads.{sort_by, dedupe, get_entities_by_chunk_ids}
use local_graph_rag.Graph.Neighborhood.{expand_neighborhood}
use local_graph_rag.Rag.Prompt.{LocalContext}
use local_graph_rag.Rag.Router.{runs_from}

abbrev pub max_entities : ℕ
max_entities = 20

abbrev pub max_relationships : ℕ
max_relationships = 40

abbrev pub max_identifier_lookups : ℕ
max_identifier_lookups = 5

unfoldable pub is_upper : ℕ → Bool
is_upper c = leb 65 c && leb c 90

unfoldable pub is_lower : ℕ → Bool
is_lower c = leb 97 c && leb c 122

-- [A-Za-z_]
unfoldable pub starts_identifier : ℕ → Bool
unfolding is_upper is_lower
starts_identifier c = is_upper c || (is_lower c || nat_eqb c 95)

-- _IDENTIFIER_RE of a whole run of word characters, in which no \b stands.
unfoldable pub is_identifier : Str → Bool
unfolding starts_identifier
is_identifier [] = false
is_identifier (c ∷ cs) =
    starts_identifier c && all (λ d. starts_identifier d || (leb 48 d && leb d 57)) cs

-- _CAMEL_RE.search
unfoldable pub is_camel : Str → Bool
unfolding is_upper is_lower
is_camel [] = false
is_camel (c ∷ cs) = let later = is_camel cs in (is_lower c && any is_upper (take 1 cs)) || later

-- _extract_identifiers; `is_word` is \w
unfoldable pub extract_identifiers : (ℕ → Bool) → Str → List Str
unfolding runs_from is_identifier is_camel
extract_identifiers is_word question =
    keep (λ t. contains 95 t || is_camel t) (keep is_identifier (runs_from is_word [] question))

-- A point of Qdrant with its payload.
pub record Hit : Type 0 where
  pub id : Str
  pub text : Option Str
  pub def_name : Option Str
  pub chunk_index : ℕ

-- The pair (chunk_id, text) of a point that has a text.
abbrev pub Piece : Type 0
Piece = Str × Str

abbrev pub texts_of : List Hit → List Str
texts_of [] = []
texts_of (h ∷ hits) = elim h.text [ none ↦ texts_of hits | some t ↦ t ∷ texts_of hits ]

abbrev pub pieces_with : List Hit → List Piece
pieces_with [] = []
pieces_with (h ∷ hits) = elim h.text [
  | none ↦ pieces_with hits
  | some t ↦ (h.id, t) ∷ pieces_with hits
]

abbrev pub has_name : Str → Option Str → Bool
has_name name none = false
has_name name (some n) = n == name

-- The entry of one name in what `_lookup_by_def_names` returns, of the points of the scroll.
unfoldable pub pieces_of : Str → List Hit → List Piece
unfolding sort_by
pieces_of name points = pieces_with (
    sort_by (λ (a b : Hit). leb a.chunk_index b.chunk_index)
      (keep (λ (h : Hit). has_name name h.def_name && is_some h.text) points))

-- The names that are looked up.
unfoldable pub deduped_identifiers : (ℕ → Bool) → Str → List Str
unfolding extract_identifiers dedupe
deduped_identifiers is_word question =
    take max_identifier_lookups (dedupe (extract_identifiers is_word question))

-- The matches of all names, in their order; no name, no scroll.
unfoldable pub matches_of : (List Str → List Hit) → List Str → List Piece
unfolding pieces_of
matches_of scroll names =
    if is_empty names then [] else flatten (map (λ name. pieces_of name (scroll names)) names)

-- The loop over the matches: a text that was not seen is appended.
unfoldable pub add_texts : List Piece → List Str → List Str
add_texts [] texts = texts
add_texts ((id, text) ∷ pieces) texts =
    add_texts pieces (if contains text texts then texts else texts ++ text ∷ [])

-- local_retrieve: `hits` is the vector search, and `scroll` the search by name.
unfoldable pub local_retrieve :
    (ℕ → Bool) → List Hit → (List Str → List Hit) → ℕ → Str → Store → LocalContext
unfolding deduped_identifiers matches_of add_texts get_entities_by_chunk_ids
local_retrieve is_word hits scroll hops question s =
    let matches = matches_of scroll (deduped_identifiers is_word question) in
    let seeds =
      get_entities_by_chunk_ids (map (λ (p : Piece). p.0) matches ++ map (λ (h : Hit). h.id) hits)
        s in
    let (entities, relationships) =
      expand_neighborhood s seeds hops max_entities max_relationships in
    record {
      entities = entities;
      relationships = relationships;
      chunk_texts = add_texts matches (texts_of hits);
    }
