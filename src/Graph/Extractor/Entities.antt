-- ===== src/Graph/Extractor/Entities.antt =====
-- What `_normalize_entities` and `_normalize_relationships` return.
use local_graph_rag.Prelude.{
  ◌≤◌, ◌≡◌, ◌≢◌, refl, sym, false, Option, some, List, [], ◌∷◌, length, All, is_empty, nat_eq,
  list_eq, ◌==◌, eq_iff, arith, Bool-cases, ◌⊎◌, inl, inr,
}
use local_graph_rag.Prelude.Text.{Str, codes, strip}
use local_graph_rag.Prelude.Strip.{strip-strip}
use local_graph_rag.Outside.{Json, str, Fields, get_field}
use local_graph_rag.Graph.Slug.{slugify}
use local_graph_rag.Graph.Extractor.{
  text_of, longest, Named, merge_named, add_named, named_of, by_slug_from,
}

-- An entry of `by_slug`: its key is the slug of its name, and is not empty; the name has no white
-- space at its ends.
pub record IsNamed (e : Named) : Type 0 where
  pub slug_of_name : e.slug ≡ slugify e.name
  pub slug_some : is_empty e.slug ≡ false
  pub stripped : strip e.name ≡ e.name

-- No two entries have one slug.
abbrev pub Distinct : List Named → Type 0
Distinct [] = Unit
Distinct (e ∷ es) = All (λ f. f.slug ≢ e.slug) es × Distinct es

strip-text_of : (v : Option Json) → strip (text_of v) ≡ text_of v
unfolding text_of strip
strip-text_of (some (str s)) = strip-strip s
strip-text_of _ = refl

named_of-IsNamed :
    (entity : Fields) → is_empty (named_of entity).slug ≡ false → IsNamed (named_of entity)
unfolding named_of
named_of-IsNamed entity h = record {
  slug_of_name = refl;
  slug_some = h;
  stripped = strip-text_of (get_field (codes "name") entity);
}

merge_named-IsNamed : (e x : Named) → IsNamed x → IsNamed (merge_named e x)
unfolding merge_named
merge_named-IsNamed e x h = record {
  slug_of_name = h.slug_of_name;
  slug_some = h.slug_some;
  stripped = h.stripped;
}

add_named-IsNamed :
    (e : Named) (xs : List Named) → IsNamed e → All IsNamed xs → All IsNamed (add_named e xs)
unfolding add_named
add_named-IsNamed e [] h a = (h, tt)
add_named-IsNamed e (x ∷ xs) h a = elim (Bool-cases (x.slug == e.slug)) [
  | inl same ↦ rw (same, All) (merge_named-IsNamed e x a.0, a.1)
  | inr other ↦ rw (other, All) (a.0, add_named-IsNamed e xs h a.1)
]

add_named-avoids :
    (t : Str) (e : Named) (xs : List Named)
    → e.slug ≢ t
    → All (λ f. f.slug ≢ t) xs
    → All (λ f. f.slug ≢ t) (add_named e xs)
unfolding add_named merge_named
add_named-avoids t e [] h a = (h, tt)
add_named-avoids t e (x ∷ xs) h a = elim (Bool-cases (x.slug == e.slug)) [
  | inl same ↦ rw (same, All) (a.0, a.1)
  | inr other ↦ rw (other, All) (a.0, add_named-avoids t e xs h a.1)
]

add_named-Distinct : (e : Named) (xs : List Named) → Distinct xs → Distinct (add_named e xs)
unfolding add_named merge_named
add_named-Distinct e [] d = (tt, tt)
add_named-Distinct e (x ∷ xs) d = elim (Bool-cases (x.slug == e.slug)) [
  | inl same ↦ rw (same, Distinct) d
  | inr other ↦
      let apart : e.slug ≢ x.slug = λ p. cc ((eq_iff x.slug e.slug).1 (sym p)) in
      rw (other, Distinct) (add_named-avoids x.slug e xs apart d.0, add_named-Distinct e xs d.1)
]

-- Some entry has the slug of `e`, and a description that is no shorter.
abbrev pub Covers : List Named → Named → Type 0
Covers [] e = ⊥
Covers (x ∷ xs) e =
    ((x.slug ≡ e.slug) × (length e.description ≤ length x.description)) ⊎ Covers xs e

merge_named-covers :
    (e x f : Named)
    → (x.slug ≡ f.slug) × (length f.description ≤ length x.description)
    → ((merge_named e x).slug ≡ f.slug)
      × (length f.description ≤ length (merge_named e x).description)
unfolding merge_named longest
merge_named-covers e x f h = (h.0, ground arith)

add_named-Covers_self : (e : Named) (xs : List Named) → Covers (add_named e xs) e
unfolding add_named
add_named-Covers_self e [] = inl (refl, omega arith)
add_named-Covers_self e (x ∷ xs) = elim (Bool-cases (x.slug == e.slug)) [
  | inl same ↦
      rw (same, Covers)
        (inl (unfold merge_named longest in ((eq_iff x.slug e.slug).0 same, ground arith)))
  | inr other ↦ rw (other, Covers) (inr (add_named-Covers_self e xs))
]

add_named-Covers :
    (e : Named) (xs : List Named) (f : Named) → Covers xs f → Covers (add_named e xs) f
unfolding add_named
add_named-Covers e [] f c = absurd c
add_named-Covers e (x ∷ xs) f c = elim (Bool-cases (x.slug == e.slug)) [
  | inl same ↦
      rw (same, Covers) (elim c [ inl h ↦ inl (merge_named-covers e x f h) | inr k ↦ inr k ])
  | inr other ↦
      rw (other, Covers) (elim c [ inl h ↦ inl h | inr k ↦ inr (add_named-Covers e xs f k) ])
]

-- The invariant of the loop over the entities.
pub record IsTable (by_slug : List Named) : Type 0 where
  pub named : All IsNamed by_slug
  pub distinct : Distinct by_slug

by_slug_from-IsTable :
    (entities : List Fields) (by_slug : List Named)
    → IsTable by_slug
    → IsTable (by_slug_from by_slug entities)
unfolding by_slug_from
by_slug_from-IsTable [] by_slug t = t
by_slug_from-IsTable (entity ∷ entities) by_slug t =
    elim (Bool-cases (is_empty (named_of entity).slug)) [
      | inl skipped ↦ rw skipped (by_slug_from-IsTable entities by_slug t)
      | inr kept ↦ rw kept (
          by_slug_from-IsTable entities (add_named (named_of entity) by_slug) (record {
            named =
                add_named-IsNamed (named_of entity) by_slug (named_of-IsNamed entity kept) t.named;
            distinct = add_named-Distinct (named_of entity) by_slug t.distinct;
          }))
    ]

by_slug_from-Covers :
    (entities : List Fields) (by_slug : List Named) (f : Named)
    → Covers by_slug f
    → Covers (by_slug_from by_slug entities) f
unfolding by_slug_from
by_slug_from-Covers [] by_slug f c = c
by_slug_from-Covers (entity ∷ entities) by_slug f c =
    elim (Bool-cases (is_empty (named_of entity).slug)) [
      | inl skipped ↦ rw skipped (by_slug_from-Covers entities by_slug f c)
      | inr kept ↦
          rw kept
            (by_slug_from-Covers entities _ f (add_named-Covers (named_of entity) by_slug f c))
    ]

by_slug_from-Covers-All :
    (entities : List Fields) (by_slug : List Named)
    → All
        (λ entity.
          is_empty (named_of entity).slug ≡ false
          → Covers (by_slug_from by_slug entities) (named_of entity))
        entities
unfolding by_slug_from
by_slug_from-Covers-All [] by_slug = tt
by_slug_from-Covers-All (entity ∷ entities) by_slug = (
  λ kept. rw kept (
      by_slug_from-Covers entities _ (named_of entity)
        (add_named-Covers_self (named_of entity) by_slug)),
  by_slug_from-Covers-All entities _,
)

-- The table of `_normalize_entities` has one entry for each slug, none of them empty, and for each
-- entity with a slug an entry whose description is at least as long.
pub by_slug-IsTable :
    (entities : List Fields)
    → IsTable (by_slug_from [] entities)
      × All
          (λ entity.
            is_empty (named_of entity).slug ≡ false
            → Covers (by_slug_from [] entities) (named_of entity))
          entities
by_slug-IsTable entities = (
  by_slug_from-IsTable entities [] (record { named = tt; distinct = tt }),
  by_slug_from-Covers-All entities [],
)
