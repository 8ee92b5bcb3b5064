-- ===== src/Ingest/Extraction.antt =====
-- src/local_graph_rag/graph/extractor.py: `extract_entities_for_file`, with its cache and the model.
use local_graph_rag.Prelude.{
  ℕ, ◌+◌, Bool, true, false, ◌||◌, none, some, List, [], ◌∷◌, ◌++◌, is_empty, if◌then◌else◌,
}
use local_graph_rag.Prelude.Text.{Str, codes, split_on, join}
use local_graph_rag.Settings.{Settings}
use local_graph_rag.Outside.{Fields, Outside}
use local_graph_rag.Graph.Reads.{cache_extraction, get_cached_extraction}
use local_graph_rag.Graph.Extractor.{
  Reply, empty_reply, ExtractionResult, empty_result, parse_extraction_response, build_batches,
  normalize_extraction_result,
}
use local_graph_rag.Ingest.World.{
  World, Outcome, done, raised, M, pure, raise, ◌>>=◌, ◌>>◌, gets, write,
}

-- s.replace(old, new)
unfoldable pub replace : Str → Str → Str → Str
replace old new s = join new (split_on old s)

-- The text of _PROMPT_TEMPLATE before `{text}`, with the entity types filled in.
abbrev pub prompt_head : Str
prompt_head =
    codes
      "You are an information extraction assistant. Extract named entities and relationships from the text below. Return ONLY valid JSON, no other text:\n\n{\n  \"entities\": [{\"name\": \"string\", \"type\": \"string\", \"description\": \"string\"}],\n  \"relationships\": [{\"source\": \"string\", \"target\": \"string\", \"label\": \"string\"}]\n}\n\nEntity types: FUNCTION, CLASS, MODULE, CONCEPT, PERSON, ORG, FILE, OTHER\nRelationship labels: snake_case verbs (uses, depends_on, calls, returns, extends, etc.)\nOnly extract entities clearly present in the text. Return empty arrays if none found.\n\nText:\n<document>\n"

abbrev pub prompt_tail : Str
prompt_tail =
    codes "\n</document>\n\nNow extract the entities and relationships from the document above."

-- The prompt of `_load_or_extract_batch`.
unfoldable pub prompt_for : Str → Str
unfolding replace
prompt_for batch_text =
    prompt_head ++ (replace (codes "</document>") (codes "<\\/document>") batch_text ++ prompt_tail)

-- A cache miss: the model is asked, and its reply is cached before it is parsed.
unfoldable pub extract_batch : Outside → Str → ℕ → Str → Str → M Reply
extract_batch outside prompt batch_index filepath sha = elim (outside.generate prompt) [
  | none ↦ raise
  | some response ↦ do
    write (
        cache_extraction (record {
          filepath = filepath;
          batch_index = batch_index;
          prompt_sha256 = sha;
          result = response;
        }))
    pure (parse_extraction_response outside response)
]

-- _load_or_extract_batch
unfoldable pub load_or_extract_batch : Outside → Str → ℕ → Str → M Reply
unfolding extract_batch prompt_for
load_or_extract_batch outside batch_text batch_index filepath = do
  let prompt = prompt_for batch_text
  let sha = outside.request_sha256 prompt
  cached ← gets (get_cached_extraction filepath batch_index sha)
  elim cached [
    | some reply ↦ pure (parse_extraction_response outside reply)
    | none ↦ extract_batch outside prompt batch_index filepath sha
  ]

-- `except Exception`: the batch counts as empty, and the file as failed.
abbrev pub attempt : Outcome Reply × World → (Reply × Bool) × World
attempt (done reply, w) = ((reply, false), w)
attempt (raised, w) = ((empty_reply, true), w)

-- The loop of `extract_entities_for_file` over the batches, from number `i` on.
unfoldable pub extract_from :
    Outside → Str → ℕ → List Str → World → (List Fields × List Fields × Bool) × World
unfolding load_or_extract_batch
extract_from outside filepath i [] w = (([], [], false), w)
extract_from outside filepath i (batch ∷ batches) w =
    let ((reply, failed), w₁) = attempt (load_or_extract_batch outside batch i filepath w) in
    let ((entities, relationships, any_failure), w₂) =
      extract_from outside filepath (i + 1) batches w₁ in
    ((reply.entities ++ entities, reply.relationships ++ relationships, failed || any_failure), w₂)

-- extract_entities_for_file
unfoldable pub extract_entities_for_file : Outside → Settings → List Str → Str → M ExtractionResult
unfolding extract_from
extract_entities_for_file outside cfg chunks filepath w =
    if is_empty chunks
    then (done empty_result, w)
    else let ((entities, relationships, failed), w') =
        extract_from outside filepath 0 (build_batches cfg chunks) w in
      (done (normalize_extraction_result entities relationships failed), w')
