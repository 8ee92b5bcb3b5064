-- ===== src/Rag/Prompt.antt =====
-- src/local_graph_rag/rag/query_graph_rag.py: the text of a prompt, and the choice of retrieval.
pub mod Supporting
use local_graph_rag.Prelude.{
  ℕ, suc, ◌+◌, Bool, true, false, not, ◌&&◌, ◌||◌, Option, none, some, List, [], ◌∷◌, ◌++◌, map,
  length, is_empty, ltb, nat_eq, list_eq, ◌==◌, if◌then◌else◌, flatten,
}
use local_graph_rag.Prelude.Text.{Str, codes, join}
use local_graph_rag.Graph.Tables.{Entity}
use local_graph_rag.Graph.Reads.{find}
use local_graph_rag.Graph.Neighborhood.{Edge}

pub record LocalContext : Type 0 where
  pub entities : List Entity
  pub relationships : List Edge
  pub chunk_texts : List Str

pub record GlobalContext : Type 0 where
  pub community_summaries : List Str
  pub community_ids : List Str

-- `x or default`, where a missing x is as false as an empty one.
abbrev pub or_text : Option Str → Str → Str
or_text none default = default
or_text (some s) default = if is_empty s then default else s

-- names.get(id, id); a dict keeps the last of equal keys, and ids are unique
pub name_of : List Entity → Str → Str
unfolding find
name_of entities id = elim (find (λ (e : Entity). e.id == id) entities) [
  | none ↦ id
  | some e ↦ e.name
]

pub entity_line : Entity → Str
entity_line e = flatten (
    codes "- "
    ∷ e.name
    ∷ codes " ("
    ∷ or_text e.type (codes "unknown")
    ∷ codes "): "
    ∷ or_text e.description []
    ∷ [])

pub relationship_line : List Entity → Edge → Str
unfolding name_of
relationship_line entities r = flatten (
    codes "- "
    ∷ name_of entities r.source_id
    ∷ codes " --["
    ∷ r.label
    ∷ codes "]--> "
    ∷ name_of entities r.target_id
    ∷ [])

-- _MAX_CHUNK_BLOCK_CHARS
abbrev pub max_chunk_block_chars : ℕ
max_chunk_block_chars = 10000

-- The loop over the chunk texts: `any_parts` and `total` are those of the parts taken so far.
pub parts_from : ℕ → Bool → ℕ → List Str → List Str
parts_from max_chars any_parts total [] = []
parts_from max_chars any_parts total (text ∷ texts) =
    let rest = parts_from max_chars true (total + length text) texts in
    if any_parts && ltb max_chars (total + length text) then [] else text ∷ rest

-- The text of _PROMPT around its two fields.
pub fill_prompt : Str → Str → Str
fill_prompt context_block question = flatten (
    codes
      "Use the context below to answer the question. If the context is missing, incomplete, or not relevant, answer using your own knowledge instead.\n\n"
    ∷ context_block
    ∷ codes "\n\nQuestion: "
    ∷ question
    ∷ codes "\nAnswer:"
    ∷ [])

abbrev pub or_none_text : Str → Str
or_none_text s = if is_empty s then codes "(none)" else s

-- _format_local
pub format_local : LocalContext → Str → Str
unfolding entity_line relationship_line parts_from fill_prompt
format_local ctx question =
    fill_prompt
      (flatten (
        codes "Entities:\n"
        ∷ or_none_text (join (codes "\n") (map entity_line ctx.entities))
        ∷ codes "\n\nRelationships:\n"
        ∷ or_none_text (join (codes "\n") (map (relationship_line ctx.entities) ctx.relationships))
        ∷ codes "\n\nSupporting text:\n"
        ∷ or_none_text
            (join (codes "\n\n") (parts_from max_chunk_block_chars false 0 ctx.chunk_texts))
        ∷ []))
      question

-- The blocks of `_format_global`; an id is given as it is printed, and zip is strict.
pub summary_blocks : List Str → List Str → List Str
summary_blocks [] summaries = []
summary_blocks (id ∷ ids) [] = []
summary_blocks (id ∷ ids) (summary ∷ summaries) =
    flatten (codes "Community " ∷ id ∷ codes ":\n" ∷ summary ∷ []) ∷ summary_blocks ids summaries

-- _format_global
pub format_global : GlobalContext → Str → Str
unfolding summary_blocks fill_prompt
format_global ctx question =
    fill_prompt (join (codes "\n\n") (summary_blocks ctx.community_ids ctx.community_summaries))
      question

pub data GraphMode : Type 0 where
  auto only_local only_global : GraphMode

-- `use_global` of `_build_prompt`; `paths` is what `project_paths` returned and `routed_global`
-- whether the router chose global.
pub use_global : GraphMode → Option (List Str) → Bool → Bool
use_global only_global paths routed_global = true
use_global only_local paths routed_global = false
use_global auto none routed_global = routed_global
use_global auto (some ps) routed_global = false

-- `_build_prompt` after its retrievals: `global_ctx` and `local_ctx` are what they return, and an
-- empty global context falls back to the local one.
pub build_prompt : GraphMode → Option (List Str) → Bool → GlobalContext → LocalContext → Str → Str
unfolding use_global format_global format_local
build_prompt mode paths routed_global global_ctx local_ctx question =
    if use_global mode paths routed_global && not (is_empty global_ctx.community_summaries)
    then format_global global_ctx question
    else format_local local_ctx question
