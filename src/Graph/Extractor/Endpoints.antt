-- ===== src/Graph/Extractor/Endpoints.antt =====
-- The relationships that are kept have both ends among the entities that are kept.
use local_graph_rag.Prelude.{
  ◌≡◌, refl, sym, ap, ap₂, ◌∙◌, Bool, true, false, List, [], ◌∷◌, map, All, In, is_empty, nat_eq,
  list_eq, arith, Bool-cases, inl, inr,
}
use local_graph_rag.Prelude.Text.{Str, strip}
use local_graph_rag.Prelude.Members.{In-of_contains}
use local_graph_rag.Outside.{Fields}
use local_graph_rag.Graph.Slug.{slugify}
use local_graph_rag.Graph.Records.{EntityInput}
use local_graph_rag.Graph.Records.Totality.{AllNamed}
use local_graph_rag.Graph.Extractor.{
  RelationshipInput, Named, by_slug_from, input_of, normalize_entities, keeps_relationship,
  relationship_of, normalize_relationships, normalize_extraction_result,
}
use local_graph_rag.Graph.Extractor.Entities.{IsNamed, by_slug-IsTable}

-- The slugs that `upsert_entities` gives the entities.
abbrev pub slugs_of : List EntityInput → List Str
slugs_of entities = map (λ e. slugify (strip e.name)) entities

-- The relationship is complete, and both its ends are among the slugs.
pub record IsAnchored (slugs : List Str) (r : RelationshipInput) : Type 0 where
  pub complete :
      (is_empty r.source ≡ false) × (is_empty r.target ≡ false) × (is_empty r.label ≡ false)
  pub source_in : In (slugify r.source) slugs
  pub target_in : In (slugify r.target) slugs

keeps-IsAnchored :
    (slugs : List Str) (r : RelationshipInput)
    → keeps_relationship slugs r ≡ true
    → IsAnchored slugs r
unfolding keeps_relationship
keeps-IsAnchored slugs r h = record {
  complete = (ground arith, ground arith, ground arith);
  source_in = In-of_contains slugs (slugify r.source) (ground arith);
  target_in = In-of_contains slugs (slugify r.target) (ground arith);
}

normalize_relationships-IsAnchored :
    (rels : List Fields) (slugs : List Str)
    → All (IsAnchored slugs) (normalize_relationships rels slugs)
unfolding normalize_relationships
normalize_relationships-IsAnchored [] slugs = tt
normalize_relationships-IsAnchored (rel ∷ rels) slugs =
    elim (Bool-cases (keeps_relationship slugs (relationship_of rel))) [
      | inl kept ↦
          rw (kept, All)
            (
              keeps-IsAnchored slugs (relationship_of rel) kept,
              normalize_relationships-IsAnchored rels slugs,
            )
      | inr dropped ↦ rw (dropped, All) (normalize_relationships-IsAnchored rels slugs)
    ]

slugs_of-inputs :
    (es : List Named) → All IsNamed es → slugs_of (map input_of es) ≡ map (λ e. e.slug) es
slugs_of-inputs [] a = refl
slugs_of-inputs (e ∷ es) a =
    ap₂ ◌∷◌ (ap slugify a.0.stripped ∙ sym a.0.slug_of_name) (slugs_of-inputs es a.1)

inputs-AllNamed : (es : List Named) → All IsNamed es → AllNamed (map input_of es)
inputs-AllNamed [] a = tt
inputs-AllNamed (e ∷ es) a =
    (rw (a.0.stripped, ← a.0.slug_of_name) a.0.slug_some, inputs-AllNamed es a.1)

-- In what `_normalize_extraction_result` returns no entity has an empty slug, and each relationship
-- has a source, a target and a label, with the slugs of both ends among those of the entities.
pub normalize-IsAnchored :
    (entities relationships : List Fields) (failed : Bool)
    → let result = normalize_extraction_result entities relationships failed in
      AllNamed result.entities × All (IsAnchored (slugs_of result.entities)) result.relationships
unfolding normalize_extraction_result normalize_entities
normalize-IsAnchored entities relationships failed =
    let es = by_slug_from [] entities in
    let named = (by_slug-IsTable entities).0.named in
    (
      inputs-AllNamed es named,
      rw (slugs_of-inputs es named)
          (normalize_relationships-IsAnchored relationships (map (λ e. e.slug) es)),
    )
