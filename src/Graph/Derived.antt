-- ===== src/Graph/Derived.antt =====
-- src/local_graph_rag/graph/record_store.py, _REFRESH_ENTITIES_SQL: the type and the description
-- of an entity, derived from the documents that mention it.
use local_graph_rag.Prelude.{
  ℕ, ◌+◌, Bool, true, false, ◌&&◌, ◌||◌, Option, none, some, List, [], ◌∷◌, length, is_empty, keep,
  contains, any, ltb, nat_eqb, nat_eq, list_eq, ◌==◌, if◌then◌else◌,
}
use local_graph_rag.Prelude.Text.{Str}
use local_graph_rag.Graph.Tables.{Entity, Mention, Store}

-- The order of texts in SQLite: by code points.
unfoldable pub str_ltb : Str → Str → Bool
str_ltb xs [] = false
str_ltb [] (y ∷ ys) = true
str_ltb (x ∷ xs) (y ∷ ys) = ltb x y || (nat_eqb x y && str_ltb xs ys)

-- ORDER BY … LIMIT 1, for the strict order `before`.
unfoldable pub first_by {ℓ} : {A : Type ℓ} → (A → A → Bool) → List A → Option A
first_by before [] = none
first_by before (x ∷ xs) = elim (first_by before xs) [
  | none ↦ some x
  | some y ↦ if before y x then some y else some x
]

unfoldable pub count_of : Str → List Str → ℕ
count_of t [] = 0
count_of t (u ∷ us) = let n = count_of t us in if u == t then n + 1 else n

-- The types that are not NULL.
unfoldable pub types_of : List Mention → List Str
types_of [] = []
types_of (m ∷ ms) = let rest = types_of ms in elim m.type [ none ↦ rest | some t ↦ t ∷ rest ]

-- ORDER BY COUNT(*) DESC, m.type
unfoldable pub more_common : List Str → Str → Str → Bool
unfolding count_of str_ltb
more_common ts a b =
    ltb (count_of b ts) (count_of a ts) || (nat_eqb (count_of a ts) (count_of b ts) && str_ltb a b)

unfoldable pub derived_type : List Mention → Option Str
unfolding first_by types_of more_common
derived_type ms = first_by (more_common (types_of ms)) (types_of ms)

-- The descriptions that are neither NULL nor empty, with their documents.
unfoldable pub descriptions_of : List Mention → List (Str × Str)
descriptions_of [] = []
descriptions_of (m ∷ ms) =
    let rest = descriptions_of ms in
    elim m.description [
      | none ↦ rest
      | some d ↦ if is_empty d then rest else (d, m.source_doc) ∷ rest
    ]

-- ORDER BY length(m.description) DESC, m.source_doc
unfoldable pub longer : Str × Str → Str × Str → Bool
unfolding str_ltb
longer (d, doc) (d', doc') =
    ltb (length d') (length d) || (nat_eqb (length d) (length d') && str_ltb doc doc')

unfoldable pub derived_description : List Mention → Option Str
unfolding first_by descriptions_of longer
derived_description ms = elim (first_by longer (descriptions_of ms)) [
  | none ↦ none
  | some (d, _) ↦ some d
]

abbrev pub mentions_of : Store → Str → List Mention
mentions_of s id = keep (λ m. m.entity_id == id) s.entity_mentions

unfoldable pub refresh_entity : Store → List Str → Entity → Entity
unfolding derived_type derived_description
refresh_entity s ids e =
    if contains e.id ids && any (λ m. m.entity_id == e.id) s.entity_mentions
    then record e {
      type = derived_type (mentions_of s e.id);
      description = derived_description (mentions_of s e.id);
    }
    else e
