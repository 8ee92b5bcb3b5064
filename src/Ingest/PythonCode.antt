-- ===== src/Ingest/PythonCode.antt =====
-- src/local_graph_rag/ingest/chunkers.py: Python is split at its top-level statements, and a
-- document goes to the chunker for its suffix. `ast.parse` is a parameter: it gives the top-level
-- nodes of a text, or none where it raises.
pub mod Pieces
use local_graph_rag.Prelude.{
  ℕ, suc, ◌+◌, ◌-◌, Bool, true, false, not, ◌||◌, Option, none, some, List, [], ◌∷◌, ◌++◌, map,
  flatten, length, is_empty, take, drop, ltb, nat_eq, list_eq, ◌==◌, if◌then◌else◌,
}
use local_graph_rag.Prelude.Text.{Str, codes, splitlines, strip, lower}
use local_graph_rag.Settings.{Settings}
use local_graph_rag.Ingest.Chunkers.{chunk_text}
use local_graph_rag.Ingest.Markdown.{chunk_markdown}

abbrev pub Chunk : Type 0
Chunk = Str × Option Str

-- A top-level node: its lines, whether it is an import, the name of a function or class, and
-- `ast.get_source_segment` of it.
pub record Node : Type 0 where
  pub lineno : ℕ
  pub end_lineno : ℕ
  pub is_import : Bool
  pub def_name : Option Str
  pub source_segment : Option Str

-- _tag_none
unfoldable pub tag_none : List Str → List Chunk
tag_none chunks = map (λ c. (c, none)) chunks

-- "".join(lines[start - 1 : end])
pub slice_lines : List Str → ℕ → ℕ → Str
slice_lines lines start end = flatten (take (end - (start - 1)) (drop (start - 1) lines))

-- _span
pub span : List Str → ℕ → ℕ → Str
unfolding slice_lines
span lines start end = strip (slice_lines lines start end)

-- _emit
pub emit : Settings → Str → Option Str → List Chunk
emit cfg segment def_name =
    if is_empty segment
    then []
    else map (λ p. (p, def_name))
        (if ltb cfg.max_chunk_chars (length segment) then chunk_text cfg segment else segment ∷ [])

-- `get_source_segment(...) or "".join(lines[...])`, stripped
pub node_segment : List Str → Node → Str
unfolding slice_lines
node_segment lines node = elim node.source_segment [
  | none ↦ strip (slice_lines lines node.lineno node.end_lineno)
  | some segment ↦
      strip (if is_empty segment then slice_lines lines node.lineno node.end_lineno else segment)
]

-- The gap before a node: `if node.lineno > prev_end + 1`.
pub gap_before : Settings → List Str → ℕ → Node → List Chunk
unfolding span emit
gap_before cfg lines prev_end node =
    if ltb (prev_end + 1) node.lineno
    then emit cfg (span lines (prev_end + 1) (node.lineno - 1)) none
    else []

-- The loop over `tree.body`, and the code after the last node.
pub nodes_from : Settings → List Str → ℕ → List Node → List Chunk
unfolding gap_before node_segment span emit
nodes_from cfg lines prev_end [] =
    if ltb prev_end (length lines)
    then emit cfg (span lines (prev_end + 1) (length lines)) none
    else []
nodes_from cfg lines prev_end (node ∷ body) =
    gap_before cfg lines prev_end node
    ++ ((if node.is_import then [] else emit cfg (node_segment lines node) node.def_name)
        ++ nodes_from cfg lines node.end_lineno body)

-- What `ast.parse` does: a tree, SyntaxError or ValueError, or another exception.
pub data Parsed : Type 0 where
  tree : List Node → Parsed
  refused : Parsed
  parse_raised : Parsed

-- `chunk_python` with the outcome of the parse, none where it raises.
pub chunk_parsed : Settings → Str → Parsed → Option (List Chunk)
unfolding nodes_from tag_none
chunk_parsed cfg text refused = some (tag_none (chunk_text cfg text))
chunk_parsed cfg text parse_raised = none
chunk_parsed cfg text (tree body) =
    let chunks = nodes_from cfg (splitlines true text) 0 body in
    some (if is_empty chunks then tag_none (chunk_text cfg text) else chunks)

-- chunk_python
pub chunk_python : (Str → Parsed) → Settings → Str → Option (List Chunk)
unfolding chunk_parsed
chunk_python parse cfg text = chunk_parsed cfg text (parse text)

-- chunk_document, on the path's suffix, none where it raises
unfoldable pub chunk_document : (Str → Parsed) → Settings → Str → Str → Option (List Chunk)
unfolding chunk_python tag_none
chunk_document parse cfg path_suffix text =
    let suffix = lower path_suffix in
    if suffix == codes ".py"
    then chunk_python parse cfg text
    else if suffix == codes ".md" || suffix == codes ".markdown"
    then some (tag_none (chunk_markdown cfg text))
    else some (tag_none (chunk_text cfg text))
