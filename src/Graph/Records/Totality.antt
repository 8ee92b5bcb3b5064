-- ===== src/Graph/Records/Totality.antt =====
-- The inserts and upserts of the store do not raise when what they reference is there.
use local_graph_rag.Prelude.{
  true, false, ◌≡◌, refl, List, [], ◌∷◌, map, All, All-mono, nat_eq, list_eq, some, is_empty,
}
use local_graph_rag.Prelude.Text.{Str, strip}
use local_graph_rag.Graph.Slug.{slugify}
use local_graph_rag.Graph.Tables.{Relationship, ChunkRow, ChunkEntity, Store, has_entity}
use local_graph_rag.Graph.Integrity.{IsSound, statement-of_IsSound}
use local_graph_rag.Graph.Records.{
  EntityInput, insert_entity, upsert_mention, refresh_entities, entity_rows, mention_row,
  upsert_entities, upsert_relationship, upsert_relationships, insert_chunk, register_chunks,
  insert_link, link_chunks,
}
use local_graph_rag.Graph.Deletes.Totality.{refresh_entities-IsSound, has_entity-refresh}
use local_graph_rag.Graph.Records.Steps.{
  IsStep, insert_entity-run, Extends, Extends-trans, each-total,
}
use local_graph_rag.Graph.Records.Rows.{
  EndsHold, HasChunk, LinkHolds, upsert_mention-run, upsert_relationship-step, insert_chunk-step,
  insert_link-step,
}

no_premise : {A : Type 0} (rows : List A) → All (λ a. Unit {0}) rows
no_premise [] = tt
no_premise (a ∷ rest) = (tt, no_premise rest)

-- On a database whose foreign keys hold `register_chunks` does not raise: the foreign keys hold
-- afterwards, no entity or chunk is lost, and the chunks are then there.
pub register_chunks-total :
    (rows : List ChunkRow) (s : Store)
    → IsSound s
    → (s' : Store) × (register_chunks rows s ≡ some s')
      × IsSound s'
      × Extends s s'
      × All (λ c. HasChunk c s') rows
unfolding register_chunks
register_chunks-total rows s h =
    each-total insert_chunk _ HasChunk insert_chunk-step rows s h (no_premise rows)

-- On a database whose foreign keys hold `upsert_relationships` does not raise when both ends of each
-- relationship are entities: the foreign keys hold afterwards and no entity or chunk is lost.
pub upsert_relationships-total :
    (rows : List Relationship) (s : Store)
    → IsSound s
    → All (λ r. EndsHold r s) rows
    → (s' : Store) × (upsert_relationships rows s ≡ some s') × IsSound s' × Extends s s'
unfolding upsert_relationships
upsert_relationships-total rows s h q =
    let (s', e, h', x, _) =
      each-total upsert_relationship EndsHold _ upsert_relationship-step rows s h q in
    (s', e, h', x)

-- On a database whose foreign keys hold `link_chunks` does not raise when the chunk and the entity of
-- each pair are there: the foreign keys hold afterwards and no entity or chunk is lost.
pub link_chunks-total :
    (rows : List ChunkEntity) (s : Store)
    → IsSound s
    → All (λ l. LinkHolds l s) rows
    → (s' : Store) × (link_chunks rows s ≡ some s') × IsSound s' × Extends s s'
unfolding link_chunks
link_chunks-total rows s h q =
    let (s', e, h', x, _) = each-total insert_link LinkHolds _ insert_link-step rows s h q in
    (s', e, h', x)

-- No entity has a name whose slug is empty.
abbrev pub AllNamed : List EntityInput → Type 0
AllNamed = All (λ e. is_empty (slugify (strip e.name)) ≡ false)

entity_rows-total :
    (entities : List EntityInput)
    → AllNamed entities
    → (rows : List (Str × EntityInput)) × (entity_rows entities ≡ some rows)
      × (map (λ row. row.0) rows ≡ map (λ e. slugify (strip e.name)) entities)
unfolding entity_rows
entity_rows-total [] h = ([], refl, refl)
entity_rows-total (e ∷ es) h =
    let (rows, p, q) = entity_rows-total es h.1 in
    ((slugify (strip e.name), record e { name = strip e.name }) ∷ rows, rw (h.0, p), rw q)

insert_row-step :
    IsStep {A = Str × EntityInput}
      (λ row. insert_entity (row.0, row.1.name))
      (λ row s. Unit)
      (λ row s. has_entity s row.0 ≡ true)
insert_row-step = record {
  runs = λ row s h q. insert_entity-run row.0 row.1.name s h;
  keeps_pre = λ row s s' x q. tt;
  keeps_result = λ row s s' x r. x.entity row.0 r;
}

mention_row-step :
    (doc : Str)
    → IsStep {A = Str × EntityInput}
        (λ row. upsert_mention (mention_row doc row))
        (λ row s. has_entity s row.0 ≡ true)
        (λ row s. Unit)
mention_row-step doc = record {
  runs = λ row s h q. upsert_mention-run (mention_row doc row) s h q;
  keeps_pre = λ row s s' x q. x.entity row.0 q;
  keeps_result = λ row s s' x r. tt;
}

refresh-Extends : (ids : List Str) (s : Store) → Extends s (refresh_entities ids s)
unfolding refresh_entities
refresh-Extends ids s = record {
  entity = λ id h. rw (has_entity-refresh s ids id s.entities) h;
  chunk = λ id h. h;
}

All-map :
    {A B : Type 0} (P : B → Type 0) (f : A → B) (xs : List A)
    → All (λ a. P (f a)) xs
    → All P (map f xs)
All-map P f [] h = tt
All-map P f (x ∷ xs) h = (h.0, All-map P f xs h.1)

-- On a database whose foreign keys hold `upsert_entities` does not raise when no slug is empty. It
-- returns the slugs in input order, each is then an entity, the foreign keys hold afterwards, and no
-- entity or chunk is lost.
pub upsert_entities-total :
    (entities : List EntityInput) (doc : Str) (s : Store)
    → IsSound s
    → AllNamed entities
    → (s' : Store) × (upsert_entities entities doc s
        ≡ some (map (λ e. slugify (strip e.name)) entities, s'))
      × IsSound s'
      × Extends s s'
      × All (λ id. has_entity s' id ≡ true) (map (λ e. slugify (strip e.name)) entities)
unfolding upsert_entities
upsert_entities-total entities doc s h named =
    let (rows, e₀, slugs) = entity_rows-total entities named in
    let (s₁, e₁, h₁, x₁, r₁) =
      each-total (λ row. insert_entity (row.0, row.1.name)) _ _ insert_row-step rows s h
        (no_premise rows) in
    let (s₂, e₂, h₂, x₂, _) =
      each-total (λ row. upsert_mention (mention_row doc row)) _ _ (mention_row-step doc) rows s₁ h₁
        r₁ in
    let ids = map (λ (row : Str × EntityInput). row.0) rows in
    let s₃ = refresh_entities ids s₂ in
    let h₃ = refresh_entities-IsSound s₂ ids h₂ in
    let x₃ = refresh-Extends ids s₂ in
    let x = Extends-trans s₁ s₂ s₃ x₂ x₃ in
    (
      s₃,
      rw (e₀, e₁, e₂, statement-of_IsSound (refresh_entities ids) s₂ h₃, slugs),
      h₃,
      Extends-trans s s₁ s₃ x₁ x,
      rw (← slugs) (
          All-map (λ id. has_entity s₃ id ≡ true) (λ row. row.0) rows
            (All-mono (λ (row : Str × EntityInput). has_entity s₁ row.0 ≡ true) _
              (λ row k. x.entity row.0 k) rows r₁)),
    )
