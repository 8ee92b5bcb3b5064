-- ===== src/Graph/Communities.antt =====
-- src/local_graph_rag/graph/community_store.py: the rows of communities and their members. The
-- partition itself is networkx's; `write_communities` is the transaction of `detect_communities`.
pub mod Stale
pub mod Detected
use local_graph_rag.Prelude.{
  ℕ, zero, suc, ◌+◌, Bool, true, false, not, ◌&&◌, Option, none, some, List, [], ◌∷◌, ◌++◌, map,
  keep, any, is_empty, contains, nat_eqb, nat_eq, list_eq, ◌==◌, if◌then◌else◌,
}
use local_graph_rag.Prelude.Text.{Str}
use local_graph_rag.Graph.Tables.{Entity, Relationship, Community, Store, statement, each, ◌>>=◌}
use local_graph_rag.Graph.Derived.{str_ltb}
use local_graph_rag.Graph.Reads.{find, sort_by}
use local_graph_rag.Graph.Neighborhood.{Edge, group_edges, is_label_sorted}

-- The pairs of `assignments`: the number of each community with each of its members.
unfoldable pub number_members : ℕ → List (List Str) → List (ℕ × Str)
number_members i [] = []
number_members i (members ∷ communities) =
    map (λ id. (i, id)) members ++ number_members (i + 1) communities

unfoldable pub clear_communities : Store → Store
clear_communities s = record s {
  entities = map (λ (e : Entity). record e { community = none }) s.entities;
}

unfoldable pub set_community : ℕ × Str → Store → Store
set_community (i, id) s = record s {
  entities =
      map (λ (e : Entity). if e.id == id then record e { community = some i } else e) s.entities;
}

-- The writes of `detect_communities`.
unfoldable pub write_communities : List (List Str) → Store → Option Store
unfolding number_members clear_communities set_community statement each
write_communities communities s = do
  s ← statement clear_communities s
  each set_community (number_members 0 communities) s

abbrev pub is_member : ℕ → Entity → Bool
is_member i e = elim e.community [ none ↦ false | some j ↦ nat_eqb j i ]

unfoldable pub get_entities_for_community : ℕ → Store → List Entity
get_entities_for_community i s = keep (is_member i) s.entities

abbrev pub is_end : ℕ → List Entity → Str → Bool
is_end i entities id = any (λ e. e.id == id && is_member i e) entities

unfoldable pub get_relationships_for_community : ℕ → Store → List Edge
unfolding group_edges sort_by str_ltb
get_relationships_for_community i s = sort_by is_label_sorted (
    group_edges [] (
      keep (λ r. is_end i s.entities r.source_id && is_end i s.entities r.target_id)
        s.relationships))

unfoldable pub replace_community : Community → Store → Store
replace_community c s = record s {
  communities = keep (λ d. not (nat_eqb d.id c.id)) s.communities ++ c ∷ [];
}

-- upsert_community
unfoldable pub upsert_community : Community → Store → Option Store
unfolding replace_community statement
upsert_community c = statement (replace_community c)

abbrev pub get_communities : Store → List Community
get_communities s = s.communities

-- has_community_summaries; the column `embedding` is NOT NULL in the rows that `upsert_community` writes
pub has_community_summaries : Store → Bool
has_community_summaries s = any (λ c. not (is_empty c.summary)) s.communities

-- get_active_community_ids, with repeats
unfoldable pub active_ids : List Entity → List ℕ
active_ids [] = []
active_ids (e ∷ es) =
    let rest = active_ids es in elim e.community [ none ↦ rest | some i ↦ i ∷ rest ]

unfoldable pub drop_stale : Store → Store
unfolding active_ids
drop_stale s = record s {
  communities = keep (λ c. contains c.id (active_ids s.entities)) s.communities;
}

-- delete_stale_communities
unfoldable pub delete_stale_communities : Store → Option Store
unfolding drop_stale statement
delete_stale_communities = statement drop_stale
