-- ===== src/Graph/Records/Steps.antt =====
-- Each insert and upsert statement keeps the foreign keys when what it references is there.
use mathlib.Core.Path.{subst}
use local_graph_rag.Prelude.{
  Bool, true, ◌||◌, ◌≡◌, refl, List, [], ◌∷◌, ◌++◌, any, In, All, nat_eq, list_eq, ◌==◌, ==-self,
  arith, inl, inr, some, none, Bool-cases, In-append_right,
}
use local_graph_rag.Prelude.Text.{Str}
use local_graph_rag.Prelude.Members.{any-of_In}
use local_graph_rag.Graph.Tables.{Entity, Store, has_entity, has_chunk, each}
use local_graph_rag.Graph.Integrity.{IsSound, statement-of_IsSound}
use local_graph_rag.Graph.Records.{insert_entity}

-- What is in the tables that others reference stays in them.
pub record Extends (s s' : Store) : Type 0 where
  pub entity : (id : Str) → has_entity s id ≡ true → has_entity s' id ≡ true
  pub chunk : (id : Str) → has_chunk s id ≡ true → has_chunk s' id ≡ true

pub Extends-refl : (s : Store) → Extends s s
Extends-refl s = record { entity = λ id h. h; chunk = λ id h. h }

pub Extends-trans : (s t u : Store) → Extends s t → Extends t u → Extends s u
Extends-trans s t u a b = record {
  entity = λ id h. b.entity id (a.entity id h);
  chunk = λ id h. b.chunk id (a.chunk id h);
}

pub has_both_mono :
    (s s' : Store)
    → Extends s s'
    → (a b : Str) → (has_entity s a ≡ true) × (has_entity s b ≡ true)
    → (has_entity s' a ≡ true) × (has_entity s' b ≡ true)
has_both_mono s s' x a b h = (x.entity a h.0, x.entity b h.1)

-- A run of statements, each with a precondition `Q` and a result `R` that later ones keep.
module _ {A : Type 0} (update : A → Store → Store) (Q R : A → Store → Type 0) where
  pub record IsStep : Type 0 where
    pub runs :
        (a : A) (s : Store)
        → IsSound s
        → Q a s
        → IsSound (update a s) × Extends s (update a s) × R a (update a s)
    pub keeps_pre : (a : A) (s s' : Store) → Extends s s' → Q a s → Q a s'
    pub keeps_result : (a : A) (s s' : Store) → Extends s s' → R a s → R a s'

  All-keeps :
      (step : IsStep) (rows : List A) (s s' : Store)
      → Extends s s'
      → All (λ a. Q a s) rows
      → All (λ a. Q a s') rows
  All-keeps step [] s s' x h = tt
  All-keeps step (a ∷ rest) s s' x h = (step.keeps_pre a s s' x h.0, All-keeps step rest s s' x h.1)

  pub each-total :
      (step : IsStep) (rows : List A) (s : Store)
      → IsSound s
      → All (λ a. Q a s) rows
      → (s' : Store) × (each update rows s ≡ some s')
        × IsSound s'
        × Extends s s'
        × All (λ a. R a s') rows
  unfolding each
  each-total step [] s h q = (s, refl, h, Extends-refl s, tt)
  each-total step (a ∷ rest) s h q =
      let (h₁, x₁, r₁) = step.runs a s h q.0 in
      let (s', e, h', x', r') =
        each-total step rest (update a s) h₁ (All-keeps step rest s (update a s) x₁ q.1) in
      (
        s',
        rw (statement-of_IsSound (update a) s h₁) e,
        h',
        Extends-trans s (update a s) s' x₁ x',
        (step.keeps_result a (update a s) s' x' r₁, r'),
      )

-- Which rows each statement may add.
any-append :
    {A : Type 0} (p : A → Bool) (xs ys : List A) → any p (xs ++ ys) ≡ (any p xs || any p ys)
any-append p [] ys = refl
any-append p (x ∷ xs) ys = ground (arith, any-append p xs ys)

-- A statement that only adds to the referenced tables keeps the foreign keys.
pub IsSound-of_Extends :
    (s s' : Store)
    → Extends s s'
    → s'.relationships ≡ s.relationships
    → s'.chunk_entities ≡ s.chunk_entities
    → s'.entity_mentions ≡ s.entity_mentions
    → IsSound s
    → IsSound s'
IsSound-of_Extends s s' x r l m h = record {
  of_relationship =
      λ q i. has_both_mono s s' x q.source_id q.target_id (h.of_relationship q (subst (In q) r i));
  of_link = λ q i.
      let (c, e) = h.of_link q (subst (In q) l i) in (x.chunk q.chunk_id c, x.entity q.entity_id e);
  of_mention = λ q i. x.entity q.entity_id (h.of_mention q (subst (In q) m i));
}

abbrev pub Ran : {A : Type 0} → (A → Store → Type 0) → (A → Store → Store) → A → Store → Type 0
Ran R update a s = IsSound (update a s) × Extends s (update a s) × R a (update a s)

abbrev pub HasSlug : Str × Str → Store → Type 0
HasSlug row s = has_entity s row.0 ≡ true

pub insert_entity-run :
    (slug name : Str) (s : Store) → IsSound s → Ran HasSlug insert_entity (slug, name) s
unfolding insert_entity
insert_entity-run slug name s h = elim (Bool-cases (has_entity s slug)) [
  | inl old ↦ rw old (h, Extends-refl s, old)
  | inr new ↦
      let row : Entity = record {
        id = slug;
        name = name;
        type = none;
        description = none;
        community = none;
      } in
      let s' : Store = record s { entities = s.entities ++ row ∷ [] } in
      let x : Extends s s' = record {
        entity = λ id k.
            rw (any-append (λ (e : Entity). e.id == id) s.entities (row ∷ [])) (ground arith);
        chunk = λ id k. k;
      } in
      let there : has_entity s' slug ≡ true =
        any-of_In (λ (e : Entity). e.id == slug) (s.entities ++ row ∷ []) row
          (In-append_right row s.entities (row ∷ []) (inl refl)) (==-self slug) in
      rw new (IsSound-of_Extends s s' x refl refl refl h, x, there)
]

pub insert_entity-step : IsStep insert_entity (λ row s. Unit) HasSlug
insert_entity-step = record {
  runs = λ row s h q. insert_entity-run row.0 row.1 s h;
  keeps_pre = λ row s s' x q. tt;
  keeps_result = λ row s s' x r. x.entity row.0 r;
}
