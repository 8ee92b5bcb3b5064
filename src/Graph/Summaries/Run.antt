-- ===== src/Graph/Summaries/Run.antt =====
-- src/local_graph_rag/graph/summarizer.py: `summarize_community` and `summarize_all_communities`.
use local_graph_rag.Prelude.{
  ℕ, ◌+◌, Bool, true, false, not, ◌&&◌, Option, none, some, List, [], ◌∷◌, ◌++◌, map, is_empty, ltb,
  nat_eqb, nat_eq, list_eq, ◌==◌, if◌then◌else◌,
}
use local_graph_rag.Prelude.Text.{Str, strip}
use local_graph_rag.Graph.Tables.{Entity, Community, Store}
use local_graph_rag.Graph.Communities.{
  get_entities_for_community, get_relationships_for_community, upsert_community, get_communities,
  write_communities, active_ids, delete_stale_communities,
}
use local_graph_rag.Graph.Summaries.{compute_member_hash, build_summary_prompt}

-- What a run has from outside: the digest, the model's reply to a prompt and the blob of the
-- embedding of a text, both none where the call raises, and the communities that `_cluster` finds.
pub record Services : Type 0 where
  pub sha256 : Str → Str
  pub generate : Str → Option Str
  pub embed : Str → Option Str
  pub cluster : Store → List (List Str)

-- A dict of rows by their hash.
abbrev pub Previous : Type 0
Previous = Str → Option Community

-- `_summaries_by_hash`: the last of the rows with a hash; rows without one are left out.
unfoldable pub by_hash : List Community → Previous
by_hash [] hash = none
by_hash (c ∷ cs) hash = elim (by_hash cs hash) [
  | some d ↦ some d
  | none ↦ if not (is_empty c.member_hash) && c.member_hash == hash then some c else none
]

-- The return of `summarize_community`: True, False, or an exception.
pub data Result : Type 0 where
  summarized skipped failed : Result

-- After a community: the result, the database, and the prompts that the model was asked.
pub record Round : Type 0 where
  pub result : Result
  pub store : Store
  pub asked : List Str

-- `new_hash`
unfoldable pub hash_of : Services → ℕ → Store → Str
hash_of services i s =
    compute_member_hash services.sha256 (get_entities_for_community i s)
      (get_relationships_for_community i s)

-- An `upsert_community` that is committed gives the result, and one that raises fails.
unfoldable pub saved : Result → Store → Option Store → Round
saved result s none = record { result = failed; store = s; asked = [] }
saved result s (some s') = record { result = result; store = s'; asked = [] }

abbrev pub ids_of : List Entity → List Str
ids_of = map (λ (e : Entity). e.id)

-- The row of community `i` with this summary and embedding.
abbrev pub row_of : Services → ℕ → Store → Str → Str → Community
row_of services i s summary embedding = record {
  id = i;
  summary = summary;
  entity_ids = ids_of (get_entities_for_community i s);
  member_hash = hash_of services i s;
  embedding = embedding;
}

abbrev pub prompt_of : ℕ → Store → Str
prompt_of i s =
    build_summary_prompt (get_entities_for_community i s) (get_relationships_for_community i s)

-- The calls of the model and of the embedding service.
unfoldable pub ask : Services → Str → Option (Str × Str)
ask services prompt = elim (services.generate prompt) [
  | none ↦ none
  | some reply ↦ elim (services.embed (strip reply)) [
    | none ↦ none
    | some blob ↦ some (strip reply, blob)
  ]
]

unfoldable pub save_answer : Services → ℕ → Store → Option (Str × Str) → Round
unfolding saved
save_answer services i s none = record { result = failed; store = s; asked = [] }
save_answer services i s (some (summary, blob)) =
    saved summarized s (upsert_community (row_of services i s summary blob) s)

-- A new summary.
unfoldable pub generate_summary : Services → ℕ → Store → Round
unfolding ask save_answer
generate_summary services i s = record (save_answer services i s (ask services (prompt_of i s))) {
  asked = prompt_of i s ∷ [];
}

-- A stored summary with the hash: it is copied if it stands under another id.
unfoldable pub reuse_summary : Services → ℕ → Store → Community → Round
unfolding saved
reuse_summary services i s prior =
    if nat_eqb prior.id i
    then record { result = skipped; store = s; asked = [] }
    else saved skipped s (upsert_community (row_of services i s prior.summary prior.embedding) s)

unfoldable pub summarize_members : Services → Bool → Previous → ℕ → Store → Round
unfolding generate_summary reuse_summary
summarize_members services true previous i s = generate_summary services i s
summarize_members services false previous i s = elim (previous (hash_of services i s)) [
  | none ↦ generate_summary services i s
  | some prior ↦ reuse_summary services i s prior
]

-- summarize_community; where `previous` is omitted it is read from the store
unfoldable pub summarize_community : Services → Bool → Option Previous → ℕ → Store → Round
unfolding summarize_members
summarize_community services force previous i s =
    if is_empty (get_entities_for_community i s)
    then record { result = skipped; store = s; asked = [] }
    else elim previous [
      | none ↦ summarize_members services force (by_hash (get_communities s)) i s
      | some rows ↦ summarize_members services force rows i s
    ]

-- sorted(set(ids))
unfoldable pub insert_id : ℕ → List ℕ → List ℕ
insert_id i [] = i ∷ []
insert_id i (j ∷ js) =
    let later = insert_id i js in
    if ltb i j then i ∷ j ∷ js else if nat_eqb i j then j ∷ js else j ∷ later

unfoldable pub sorted_ids : List ℕ → List ℕ
unfolding insert_id
sorted_ids [] = []
sorted_ids (i ∷ is) = insert_id i (sorted_ids is)

pub record Totals : Type 0 where
  pub summarized_count : ℕ
  pub skipped_count : ℕ
  pub failed_count : ℕ

unfoldable pub count_result : Result → Totals → Totals
count_result summarized c = record c { summarized_count = c.summarized_count + 1 }
count_result skipped c = record c { skipped_count = c.skipped_count + 1 }
count_result failed c = record c { failed_count = c.failed_count + 1 }

-- After the loop: the counts, the database, and all prompts.
pub record Finished : Type 0 where
  pub totals : Totals
  pub store : Store
  pub asked : List Str

unfoldable pub summarize_each :
    Services → Bool → Option Previous → List ℕ → Totals → Store → Finished
unfolding summarize_community count_result
summarize_each services force previous [] totals s = record {
  totals = totals;
  store = s;
  asked = [];
}
summarize_each services force previous (i ∷ is) totals s =
    let round = summarize_community services force previous i s in
    let later =
      summarize_each services force previous is (count_result round.result totals) round.store in
    record later { asked = round.asked ++ later.asked }

-- `None if force else _summaries_by_hash(store)`
unfoldable pub previous_of : Bool → Store → Option Previous
unfolding by_hash
previous_of true s = none
previous_of false s = some (by_hash (get_communities s))

abbrev pub no_totals : Totals
no_totals = record { summarized_count = 0; skipped_count = 0; failed_count = 0 }

-- The loop over the communities that `detect_communities` wrote, with the rows from before it.
unfoldable pub summarize_detected : Services → Bool → Option Previous → Store → Finished
unfolding summarize_each sorted_ids
summarize_detected services force previous s =
    summarize_each services force previous (sorted_ids (active_ids s.entities)) no_totals s

-- summarize_all_communities: none where a write of the store itself raises
unfoldable pub summarize_all_communities : Services → Bool → Store → Option Finished
unfolding summarize_detected previous_of
summarize_all_communities services force s = elim (write_communities (services.cluster s) s) [
  | none ↦ none
  | some s₁ ↦
      let done = summarize_detected services force (previous_of force s) s₁ in
      elim (delete_stale_communities done.store) [
        | none ↦ none
        | some s₂ ↦ some (record done { store = s₂ })
      ]
]
