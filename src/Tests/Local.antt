-- ===== src/Tests/Local.antt =====
-- A local retrieval on a small input.
use local_graph_rag.Prelude.{
  All, ℕ, ◌≡◌, refl, Bool, ◌||◌, ◌&&◌, some, none, List, [], ◌∷◌, ◌++◌, In, leb, nat_eqb,
}
use local_graph_rag.Prelude.Text.{Str, codes}
use local_graph_rag.Graph.Tables.{Store}
use local_graph_rag.Graph.Reads.{dedupe}
use local_graph_rag.Rag.Router.{runs_from}
use local_graph_rag.Rag.Local.{
  Piece, pieces_of, Hit, texts_of, deduped_identifiers, extract_identifiers, is_identifier,
  is_camel, starts_identifier, is_upper, is_lower, local_retrieve,
}
use local_graph_rag.Rag.Local.Texts.{AllNew, local_retrieve-AllNew}

abbrev is_word : ℕ → Bool
is_word c = (leb 97 c && leb c 122) || ((leb 65 c && leb c 90) || nat_eqb c 95)

abbrev question : Str
question = codes "Does GraphStore call run_one or runTwo?"

named :
    deduped_identifiers is_word question
    ≡ codes "GraphStore" ∷ codes "run_one" ∷ codes "runTwo" ∷ []
unfolding deduped_identifiers extract_identifiers dedupe runs_from is_identifier is_camel
    starts_identifier is_upper is_lower
named = refl

abbrev hits : List Hit
hits =
    record { id = codes "1"; text = some (codes "def run_one"); def_name = none; chunk_index = 0 }
    ∷ []

abbrev scroll : List Str → List Hit
scroll names =
    record {
      id = codes "1";
      text = some (codes "def run_one");
      def_name = some (codes "run_one");
      chunk_index = 0;
    }
    ∷ record {
      id = codes "2";
      text = some (codes "class");
      def_name = some (codes "GraphStore");
      chunk_index = 1;
    }
    ∷ []

abbrev empty_store : Store
empty_store = record {
  entities = [];
  relationships = [];
  chunks = [];
  chunk_entities = [];
  entity_mentions = [];
  communities = [];
  fingerprints = [];
  extraction_cache = [];
}

local_retrieve-AllNew_example :
    ((extra : List Str) × (((local_retrieve is_word hits scroll 2 question empty_store).chunk_texts
          ≡ texts_of hits ++ extra)
        × AllNew (texts_of hits) extra))
    × All
        (λ name.
          All
            (λ (p : Piece).
              In p.1 (local_retrieve is_word hits scroll 2 question empty_store).chunk_texts)
            (pieces_of name (scroll (deduped_identifiers is_word question))))
        (deduped_identifiers is_word question)
local_retrieve-AllNew_example = local_retrieve-AllNew is_word hits scroll 2 question empty_store
