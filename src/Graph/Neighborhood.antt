-- ===== src/Graph/Neighborhood.antt =====
-- src/local_graph_rag/graph/community_store.py: `expand_neighborhood` and `_next_hop`.
pub mod Bounded
use local_graph_rag.Prelude.{
  ℕ, zero, suc, ◌+◌, ◌-◌, Bool, true, false, not, ◌&&◌, ◌||◌, Option, none, some, List, [], ◌∷◌,
  ◌++◌, map, flatten, length, take, is_empty, keep, any, contains, ltb, leb, nat_eqb, nat_eq,
  list_eq, ◌==◌, if◌then◌else◌,
}
use local_graph_rag.Prelude.Text.{Str}
use local_graph_rag.Graph.Tables.{Entity, Relationship, Store}
use local_graph_rag.Graph.Derived.{str_ltb}
use local_graph_rag.Graph.Reads.{find, sort_by, dedupe}

-- The rows of `_next_hop` for one parent: every edge, from both of its ends, with its weight.
pub incident : Str → List Relationship → List (Str × ℕ)
incident parent rels =
    map (λ r. (r.target_id, r.weight)) (keep (λ r. r.source_id == parent) rels)
    ++ map (λ r. (r.source_id, r.weight)) (keep (λ r. r.target_id == parent) rels)

-- SUM(weight) of a group
unfoldable pub sum_of : List ℕ → ℕ
sum_of [] = 0
sum_of (n ∷ ns) = n + sum_of ns

abbrev pub weight_to : Str → List (Str × ℕ) → ℕ
weight_to neighbor edges = sum_of (map (λ e. e.1) (keep (λ e. e.0 == neighbor) edges))

-- ORDER BY SUM(weight) DESC, neighbor
abbrev pub is_ranked : List (Str × ℕ) → Str → Str → Bool
is_ranked edges a b =
    let wa = weight_to a edges in
    let wb = weight_to b edges in ltb wb wa || (nat_eqb wa wb && not (str_ltb b a))

-- `ranked[parent]`
pub ranked : List Relationship → List Str → Str → List Str
unfolding incident sum_of sort_by dedupe str_ltb
ranked rels chosen parent =
    let edges = incident parent rels in
    keep (λ n. not (contains n chosen)) (sort_by (is_ranked edges) (dedupe (map (λ e. e.0) edges)))

-- zip_longest without its fill values: one list put before the tiers of the lists after it.
pub zip_onto {ℓ} : {A : Type ℓ} → List A → List (List A) → List (List A)
zip_onto [] tiers = tiers
zip_onto (x ∷ xs) [] = (x ∷ []) ∷ zip_onto xs []
zip_onto (x ∷ xs) (tier ∷ tiers) = (x ∷ tier) ∷ zip_onto xs tiers

pub zip_longest {ℓ} : {A : Type ℓ} → List (List A) → List (List A)
unfolding zip_onto
zip_longest [] = []
zip_longest (xs ∷ xss) = zip_onto xs (zip_longest xss)

-- The loop over the tiers, after `count` picks.
pub pick_from : ℕ → ℕ → List Str → List Str → List Str
pick_from budget count chosen [] = []
pick_from budget count chosen (neighbor ∷ rest) =
    let skipped = pick_from budget count chosen rest in
    let more = pick_from budget (count + 1) (neighbor ∷ chosen) rest in
    if contains neighbor chosen
    then skipped
    else if nat_eqb (count + 1) budget
    then neighbor ∷ []
    else neighbor ∷ more

-- _next_hop
pub next_hop : List Relationship → List Str → List Str → ℕ → List Str
unfolding ranked zip_longest pick_from
next_hop rels frontier chosen budget =
    pick_from budget 0 chosen (flatten (zip_longest (map (ranked rels chosen) frontier)))

-- The loop over the hops; `chosen` holds what `selected` lists.
pub expand_from : List Relationship → ℕ → ℕ → List Str → List Str → List Str
unfolding next_hop
expand_from rels max_entities zero frontier selected = selected
expand_from rels max_entities (suc hops) frontier selected =
    let found = next_hop rels frontier selected (max_entities - length selected) in
    let rest = expand_from rels max_entities hops found (selected ++ found) in
    if is_empty frontier || leb max_entities (length selected) then selected else rest

pub expand_ids : List Relationship → List Str → ℕ → ℕ → List Str
unfolding expand_from dedupe
expand_ids rels seed_ids hops max_entities =
    let selected = take max_entities (dedupe seed_ids) in
    expand_from rels max_entities hops selected selected

-- A row of GROUP BY source_id, target_id, label with SUM(weight).
pub record Edge : Type 0 where
  pub source_id : Str
  pub target_id : Str
  pub label : Str
  pub weight : ℕ

abbrev pub same_edge : Relationship → Relationship → Bool
same_edge r q = r.source_id == q.source_id && (r.target_id == q.target_id && r.label == q.label)

unfoldable pub group_edges : List Relationship → List Relationship → List Edge
unfolding sum_of
group_edges seen [] = []
group_edges seen (r ∷ rels) =
    let rest = group_edges (seen ++ r ∷ []) rels in
    if any (same_edge r) seen
    then rest
    else record {
      source_id = r.source_id;
      target_id = r.target_id;
      label = r.label;
      weight = r.weight + sum_of (map (λ q. q.weight) (keep (same_edge r) rels));
    }
      ∷ rest

-- Comparison by a first key, then by a second.
abbrev pub then_by : Bool → Bool → Bool → Bool
then_by less greater rest = less || (not greater && rest)

abbrev pub is_label_sorted : Edge → Edge → Bool
is_label_sorted a b = then_by (str_ltb a.source_id b.source_id) (str_ltb b.source_id a.source_id) (
    then_by (str_ltb a.target_id b.target_id) (str_ltb b.target_id a.target_id)
      (not (str_ltb b.label a.label)))

abbrev pub is_inside : List Str → Edge → Bool
is_inside ids e = contains e.source_id ids && contains e.target_id ids

abbrev pub is_edge_sorted : List Str → Edge → Edge → Bool
is_edge_sorted ids a b =
    then_by (is_inside ids a && not (is_inside ids b)) (is_inside ids b && not (is_inside ids a))
      (then_by (ltb b.weight a.weight) (ltb a.weight b.weight) (is_label_sorted a b))

pub edges_around : List Relationship → List Str → ℕ → List Edge
unfolding group_edges sort_by str_ltb
edges_around rels ids max_relationships = take max_relationships (
    sort_by (is_edge_sorted ids)
      (group_edges [] (keep (λ r. contains r.source_id ids || contains r.target_id ids) rels)))

pub rows_of : List Entity → List Str → List Entity
unfolding find
rows_of entities [] = []
rows_of entities (id ∷ ids) = elim (find (λ (e : Entity). e.id == id) entities) [
  | none ↦ rows_of entities ids
  | some e ↦ e ∷ rows_of entities ids
]

-- expand_neighborhood
pub expand_neighborhood : Store → List Str → ℕ → ℕ → ℕ → List Entity × List Edge
unfolding expand_ids edges_around rows_of
expand_neighborhood s seed_ids hops max_entities max_relationships =
    let selected = expand_ids s.relationships seed_ids hops max_entities in
    (rows_of s.entities selected, edges_around s.relationships selected max_relationships)
