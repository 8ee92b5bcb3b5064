-- ===== src/Tests/Chunks.antt =====
-- The chunkers on small texts.
use local_graph_rag.Prelude.{
  refl, map, ◌≡◌, true, false, none, some, List, [], ◌∷◌, length, All, ◌≤◌, ◌<◌, arith, flatten,
}
use local_graph_rag.Prelude.Text.{is_line_break, Str, codes, split_on, split_from, starts_with}
use local_graph_rag.Settings.{Settings}
use local_graph_rag.Ingest.Chunkers.{merge_splits, chunk_text}
use local_graph_rag.Ingest.Chunkers.Overshoot.{merge_splits-overshoots}
use local_graph_rag.Prelude.Text.{join}
use local_graph_rag.Ingest.Markdown.Overshoot.{paragraphs-overshoot}
use local_graph_rag.Ingest.Markdown.{paragraphs_from}
use local_graph_rag.Prelude.{◌+◌}
use local_graph_rag.Ingest.Chunkers.Windows.{Windows, merge_splits-Windows}
use local_graph_rag.Ingest.Chunkers.Recursion.{chunk_limit, chunk_text-IsBounded}
use local_graph_rag.Ingest.Markdown.{sections_from}
use local_graph_rag.Ingest.Markdown.Sections.{Sections, split-Sections}
use local_graph_rag.Ingest.PythonCode.{Parsed, tree, chunk_python}
use local_graph_rag.Ingest.PythonCode.Pieces.{IsChunked, chunk_python-IsTagged}
use local_graph_rag.Ingest.GitHistory.{parse_log}
use local_graph_rag.Ingest.GitHistory.{Commit}
use local_graph_rag.Ingest.GitHistory.Names.{printed_lines}
use local_graph_rag.Ingest.GitHistory.Parsing.{
  printed_fields, Without-of_all, Fields, IsPlain, printed, AllRead, parse_log-printed,
}

abbrev small : Settings
small = record {
  chunk_size = 10;
  chunk_overlap = 4;
  max_chunk_chars = 16;
  extract_batch_tokens = 3;
}

abbrev words : List Str
words = codes "alpha" ∷ codes "be" ∷ codes "ce" ∷ codes "delta" ∷ []

merge_splits-Windows_example : Windows (codes " ") [] words (merge_splits small words (codes " "))
merge_splits-Windows_example = merge_splits-Windows small (codes " ") words

abbrev sentence : Str
sentence = codes "alpha be ce delta epsilon"

chunk_text-IsBounded_example : All (λ c. length c ≤ chunk_limit small) (chunk_text small sentence)
chunk_text-IsBounded_example = chunk_text-IsBounded small sentence (omega arith)

abbrev document : List Str
document = codes "# One" ∷ codes "```" ∷ codes "# not a header" ∷ codes "```" ∷ codes "## Two" ∷ []

split-Sections_example : Sections none true document (sections_from none [] document)
split-Sections_example = split-Sections document

abbrev long_section : Str
long_section = codes "first words\n\nsecond words"

long_paragraphs : All (λ (p : Str). 0 < length p) (split_on (codes "\n\n") long_section)
unfolding split_on split_from starts_with
long_paragraphs = (omega arith, (omega arith, tt))

abbrev parsed_tree : Str → Parsed
parsed_tree text = tree (
    record {
      lineno = 1;
      end_lineno = 2;
      is_import = false;
      def_name = some (codes "run");
      source_segment = some (codes "def run():\n  pass");
    }
    ∷ [])

abbrev program : Str
program = codes "def run():\n  pass\n"

chunk_python-IsTagged_example :
    IsChunked small (parsed_tree program) (chunk_python parsed_tree small program)
chunk_python-IsTagged_example = chunk_python-IsTagged small parsed_tree program (omega arith)

abbrev first_commit : Fields
first_commit = record {
  short_hash = codes "a1";
  date = codes "2026-01-02";
  subject = codes "Add it";
  body = codes "# why\n";
  lines = [] ∷ [] ∷ codes "x.py" ∷ [];
}

first-IsPlain : IsPlain first_commit
unfolding is_line_break flatten
first-IsPlain = record {
  of_fields = (
    Without-of_all 31 first_commit.short_hash refl,
    Without-of_all 31 first_commit.date refl,
    Without-of_all 31 first_commit.subject refl,
    Without-of_all 31 first_commit.body refl,
    Without-of_all 31 (printed_lines first_commit.lines) refl,
  );
  of_records = Without-of_all 30 (printed_fields first_commit) refl;
  of_lines = (tt, (tt, ((refl, (refl, (refl, (refl, tt)))), tt)));
}

parse_log-printed_example :
    (cs : List Commit) × ((parse_log (flatten (map printed (first_commit ∷ []))) ≡ some cs)
      × AllRead (first_commit ∷ []) cs)
parse_log-printed_example = parse_log-printed (first_commit ∷ []) (first-IsPlain, tt)

merge_splits-overshoots_example :
    (merge_splits small (codes "abc" ∷ codes "delta-nine" ∷ []) (codes " ")
      ≡ codes "abc" ∷ join (codes " ") (codes "abc" ∷ codes "delta-nine" ∷ []) ∷ [])
    × (10 < length (join (codes " ") (codes "abc" ∷ codes "delta-nine" ∷ [])))
merge_splits-overshoots_example =
    merge_splits-overshoots small (codes " ") (codes "abc") (codes "delta-nine") (omega arith)
      (omega arith)

paragraphs-overshoot_example :
    (paragraphs_from small [] 0 ([] ∷ codes "seven77" ∷ codes "seven_7" ∷ [])
      ≡ join (codes "\n\n") ([] ∷ codes "seven77" ∷ codes "seven_7" ∷ []) ∷ [])
    × (length (join (codes "\n\n") ([] ∷ codes "seven77" ∷ codes "seven_7" ∷ [])) ≡ 16 + 2)
paragraphs-overshoot_example = paragraphs-overshoot small (codes "seven77") (codes "seven_7") refl
