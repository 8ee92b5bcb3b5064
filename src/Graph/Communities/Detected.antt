-- ===== src/Graph/Communities/Detected.antt =====
-- What `detect_communities` writes.
use local_graph_rag.Prelude.{
  ℕ, ◌≡◌, refl, sym, ap, ◌∙◌, Bool-cases, inl, inr, none, some, List, [], ◌∷◌, map, nat_eq, list_eq,
  ◌==◌, if◌then◌else◌,
}
use local_graph_rag.Prelude.Text.{Str}
use local_graph_rag.Graph.Tables.{Entity, Store, statement, each, foreign_keys_hold}
use local_graph_rag.Graph.Communities.{
  number_members, clear_communities, set_community, write_communities,
}

abbrev pub unassigned : List Entity → List Entity
unassigned = map (λ (e : Entity). record e { community = none })

abbrev pub assign_one : ℕ × Str → List Entity → List Entity
assign_one (i, id) = map (λ (e : Entity). if e.id == id then record e { community = some i } else e)

abbrev pub assign : List (ℕ × Str) → List Entity → List Entity
assign [] es = es
assign (p ∷ ps) es = assign ps (assign_one p es)

unassigned-assign_one :
    (p : ℕ × Str) (es : List Entity) → unassigned (assign_one p es) ≡ unassigned es
unassigned-assign_one p [] = refl
unassigned-assign_one (i, id) (e ∷ es) = elim (Bool-cases (e.id == id)) [
  | inl same ↦
      rw same (ap (λ l. record e { community = none } ∷ l) (unassigned-assign_one (i, id) es))
  | inr other ↦
      rw other (ap (λ l. record e { community = none } ∷ l) (unassigned-assign_one (i, id) es))
]

pub unassigned-assign :
    (ps : List (ℕ × Str)) (es : List Entity) → unassigned (assign ps es) ≡ unassigned es
unassigned-assign [] es = refl
unassigned-assign (p ∷ ps) es = unassigned-assign ps (assign_one p es) ∙ unassigned-assign_one p es

pub unassigned_twice : (es : List Entity) → unassigned (unassigned es) ≡ unassigned es
unassigned_twice [] = refl
unassigned_twice (e ∷ es) = ap (λ l. record e { community = none } ∷ l) (unassigned_twice es)

-- `t` is `s` with other entities.
pub record Reassigned (entities : List Entity) (s t : Store) : Type 0 where
  pub as_entities : t.entities ≡ entities
  pub as_relationships : t.relationships ≡ s.relationships
  pub as_links : t.chunk_entities ≡ s.chunk_entities
  pub as_communities : t.communities ≡ s.communities

pub statement-some :
    (update : Store → Store) (s t : Store) → statement update s ≡ some t → update s ≡ t
unfolding statement
statement-some update s t e = elim (Bool-cases (foreign_keys_hold (update s))) [
  | inl h ↦ cc (rw h at e)
  | inr h ↦ absurd (cc (rw h at e))
]

each-Reassigned :
    (ps : List (ℕ × Str)) (s t : Store)
    → each set_community ps s ≡ some t
    → Reassigned (assign ps s.entities) s t
unfolding each set_community
each-Reassigned [] s t e =
    let own : s ≡ t = cc e in
    record {
      as_entities = ap (λ (x : Store). x.entities) (sym own);
      as_relationships = ap (λ (x : Store). x.relationships) (sym own);
      as_links = ap (λ (x : Store). x.chunk_entities) (sym own);
      as_communities = ap (λ (x : Store). x.communities) (sym own);
    }
each-Reassigned ((i, id) ∷ ps) s t e =
    elim (Bool-cases (foreign_keys_hold (set_community (i, id) s))) [
      | inl h ↦
          let r = each-Reassigned ps (set_community (i, id) s) t (rw (h, statement) at e) in
          record {
            as_entities = r.as_entities;
            as_relationships = r.as_relationships;
            as_links = r.as_links;
            as_communities = r.as_communities;
          }
      | inr h ↦ absurd (cc (rw (h, statement) at e))
    ]

-- What `detect_communities` does with a partition.
pub detected :
    (partition : List (List Str)) (s t : Store)
    → write_communities partition s ≡ some t
    → Reassigned (assign (number_members 0 partition) (unassigned s.entities)) s t
unfolding write_communities clear_communities statement
detected partition s t e = elim (Bool-cases (foreign_keys_hold (clear_communities s))) [
  | inl h ↦
      let r =
        each-Reassigned (number_members 0 partition) (clear_communities s) t
          (rw (h, statement) at e) in
      record {
        as_entities = r.as_entities;
        as_relationships = r.as_relationships;
        as_links = r.as_links;
        as_communities = r.as_communities;
      }
  | inr h ↦ absurd (cc (rw (h, statement) at e))
]
