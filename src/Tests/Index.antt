-- ===== src/Tests/Index.antt =====
-- The indexing of one file, with a service that fails in the middle.
use local_graph_rag.Prelude.{ℕ, ◌≡◌, refl, inl, inr, sym, ap, ◌∙◌, false, none, some, [], ◌∷◌}
use local_graph_rag.Prelude.Text.{
  strip, strip_of, drop_while, rstrip, is_space, occurs, split_on, split_from, starts_with, lower,
  join, Str, codes,
}
use local_graph_rag.Ingest.Chunkers.{
  chunk_text, recursive_split, parts_of, assemble, flush, merge_splits, merge_from, make_room,
  is_full, drop_overlap,
}
use local_graph_rag.Ingest.PythonCode.{refused, chunk_document, tag_none}
use local_graph_rag.Graph.Records.{register_chunks, insert_chunk}
use local_graph_rag.Graph.Tables.{each, statement, foreign_keys_hold}
use local_graph_rag.Graph.Deletes.{delete_file_data, delete_file_rows}
use local_graph_rag.Settings.{Settings}
use local_graph_rag.Outside.{Outside}
use local_graph_rag.Ingest.World.{
  write, write_for, delete_points, upsert_points, call, raised, Point, works, fails, World,
}
use local_graph_rag.Ingest.Pipeline.{
  index_hashed, index_text, index_chunked, index_chunks, chunk_file, cleanup_changed_file,
  delete_vectors, write_index_data, build_points, File, index_file,
}
use local_graph_rag.Ingest.Pipeline.Tracked.{IsTracked, IsHeld}
use local_graph_rag.Ingest.Pipeline.Invariant.{index_file-IsTracked}
use local_graph_rag.Ingest.Pipeline.Fingerprints.{Unmarked, raised-Unmarked}
use local_graph_rag.Graph.Reads.{get_chunks_for_file, sort_by, find, get_hash}

abbrev settings : Settings
settings = record {
  chunk_size = 10;
  chunk_overlap = 4;
  max_chunk_chars = 16;
  extract_batch_tokens = 3;
}

-- A model that replies with no entities, and a reader that reads nothing.
abbrev quiet : Outside
quiet = record {
  loads = λ s. none;
  request_sha256 = λ s. s;
  generate = λ s. some (codes "{}");
  word_search = λ name text. false;
  parse_python = λ s. refused;
}

abbrev old_point : Point
old_point = record {
  id = codes "old";
  text = codes "old text";
  filepath = codes "/n.txt";
  chunk_index = 0;
  def_name = none;
}

abbrev notes : File
notes = record {
  filepath = codes "/n.txt";
  suffix = codes ".txt";
  sha256 = some (codes "new");
  text = some (codes "some new text here");
  is_history = false;
}

-- The file was indexed before; the embedding and the delete of the old points work, the delete of
-- the old rows and the registration of the chunks too, and the upsert stops after one point.
abbrev world : World
world = record {
  store = record {
    entities = [];
    relationships = [];
    chunks = record { chunk_id = codes "old"; filepath = codes "/n.txt"; chunk_index = 0 } ∷ [];
    chunk_entities = [];
    communities = [];
    extraction_cache = [];
    fingerprints = record { filepath = codes "/n.txt"; sha256 = codes "before" } ∷ [];
    entity_mentions = [];
  };
  vectors = old_point ∷ [];
  faults = works ∷ works ∷ works ∷ works ∷ fails 1 ∷ [];
}

-- The uuids of the run: each longer than the last.
abbrev ids : ℕ → Str
ids i = i ∷ []

world-IsHeld : IsHeld ids world
world-IsHeld = record {
  tracked = record {
    at = λ p m. elim m [
      | inl e ↦ rw e (record {
        row = record { chunk_id = codes "old"; filepath = codes "/n.txt"; chunk_index = 0 };
        there = inl refl;
        of_id = refl;
        of_file = refl;
      })
      | inr m ↦ elim m [ ]
    ];
  };
  fresh = record {
    unused = λ p i m own. elim m [
      | inl e ↦ clash i (sym (ap (λ (x : Point). x.id) e) ∙ own)
      | inr m ↦ elim m [ ]
    ];
  };
}
  where
    clash : (i : ℕ) → codes "old" ≡ i ∷ [] → ⊥
    clash i e = cc e

index_file-IsTracked_example : IsTracked (index_file quiet settings ids notes world).1
index_file-IsTracked_example = index_file-IsTracked quiet settings ids notes world world-IsHeld

-- In that run the upsert raises.
world-Unmarked : Unmarked (codes "/n.txt") (codes "new") world
world-Unmarked = record { at = λ e. unfold get_hash find in clash e }
  where
    clash : some (codes "before") ≡ some (codes "new") → ⊥
    clash e = cc e

abbrev after : World
after = (index_file quiet settings ids notes world).1

run-raises : index_file quiet settings ids notes world ≡ (raised, after)
unfolding index_file index_hashed index_text index_chunked index_chunks chunk_file
    cleanup_changed_file delete_vectors write_index_data build_points chunk_document tag_none
    chunk_text recursive_split parts_of assemble flush merge_splits merge_from make_room is_full
    drop_overlap write write_for delete_points upsert_points call register_chunks each statement
    insert_chunk delete_file_data delete_file_rows foreign_keys_hold get_hash find
    get_chunks_for_file sort_by strip strip_of drop_while rstrip is_space occurs split_on split_from
    starts_with lower join
run-raises = refl

raised-Unmarked_example : Unmarked (codes "/n.txt") (codes "new") after
raised-Unmarked_example =
    raised-Unmarked quiet settings ids notes (codes "new") world after refl world-Unmarked
      run-raises
