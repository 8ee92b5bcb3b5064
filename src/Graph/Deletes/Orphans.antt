-- ===== src/Graph/Deletes/Orphans.antt =====
-- `_delete_file_rows` leaves no entity that nothing references, and no row of its file.
use mathlib.Core.Path.{subst}
use local_graph_rag.Prelude.{
  Bool, true, false, not, ◌||◌, ◌≡◌, refl, sym, ap, ◌∙◌, List, ◌++◌, map, keep, any, In, nat_eq,
  list_eq, ◌==◌, eq_iff, contains, arith, Bool-cases, inl, inr, ◌⊎◌, In-append_left,
  In-append_right,
}
use local_graph_rag.Prelude.Text.{Str}
use local_graph_rag.Prelude.Members.{
  any-of_In, In-of_any, In-keep, In-of_keep, In-map, In-of_map, contains-of_In,
}
use local_graph_rag.Graph.Tables.{Entity, Relationship, ChunkEntity, Mention, Store}
use local_graph_rag.Graph.Derived.{refresh_entity}
use local_graph_rag.Graph.Records.{refresh_entities}
use local_graph_rag.Graph.Deletes.{
  chunk_of_file, mention_ids, link_ids, source_ids, target_ids, file_entity_ids, is_referenced,
  delete_links, delete_chunks, delete_relationships, delete_mentions, delete_unreferenced,
  delete_fingerprint,
}
use local_graph_rag.Graph.Deletes.Totality.{without_file, file_deleted, id-refresh_entity}

-- Every entity is mentioned by a document, or referenced by a relationship or a chunk.
pub record AllReferenced (s : Store) : Type 0 where
  pub at : (e : Entity) → In e s.entities → is_referenced s e.id ≡ true

-- A row of the store that references an entity.
data Reference (s : Store) (id : Str) : Type 0 where
  mention : (m : Mention) → In m s.entity_mentions → m.entity_id ≡ id → Reference s id
  source : (r : Relationship) → In r s.relationships → r.source_id ≡ id → Reference s id
  target : (r : Relationship) → In r s.relationships → r.target_id ≡ id → Reference s id
  link : (l : ChunkEntity) → In l s.chunk_entities → l.entity_id ≡ id → Reference s id

or_cases : (a b : Bool) → (a || b) ≡ true → (a ≡ true) ⊎ (b ≡ true)
or_cases true b h = inl refl
or_cases false b h = inr h

module _ (s : Store) (id : Str) where
  Reference-of_mention :
      any (λ (m : Mention). m.entity_id == id) s.entity_mentions ≡ true → Reference s id
  Reference-of_mention h =
      let (m, i, k) = In-of_any (λ (m : Mention). m.entity_id == id) s.entity_mentions h in
      mention m i ((eq_iff m.entity_id id).0 k)

  Reference-of_source :
      any (λ (r : Relationship). r.source_id == id) s.relationships ≡ true → Reference s id
  Reference-of_source h =
      let (r, i, k) = In-of_any (λ (r : Relationship). r.source_id == id) s.relationships h in
      source r i ((eq_iff r.source_id id).0 k)

  Reference-of_target :
      any (λ (r : Relationship). r.target_id == id) s.relationships ≡ true → Reference s id
  Reference-of_target h =
      let (r, i, k) = In-of_any (λ (r : Relationship). r.target_id == id) s.relationships h in
      target r i ((eq_iff r.target_id id).0 k)

  Reference-of_link :
      any (λ (l : ChunkEntity). l.entity_id == id) s.chunk_entities ≡ true → Reference s id
  Reference-of_link h =
      let (l, i, k) = In-of_any (λ (l : ChunkEntity). l.entity_id == id) s.chunk_entities h in
      link l i ((eq_iff l.entity_id id).0 k)

  Reference-of_test : is_referenced s id ≡ true → Reference s id
  unfolding is_referenced
  Reference-of_test h =
      elim (or_cases (any (λ (m : Mention). m.entity_id == id) s.entity_mentions) _ h) [
        | inl a ↦ Reference-of_mention a
        | inr rest ↦
            elim (or_cases (any (λ (r : Relationship). r.source_id == id) s.relationships) _ rest) [
              | inl a ↦ Reference-of_source a
              | inr rest' ↦
                  elim (or_cases (any (λ (r : Relationship). r.target_id == id) s.relationships) _
                    rest') [ inl a ↦ Reference-of_target a | inr a ↦ Reference-of_link a ]
            ]
      ]

  test-of_Reference : Reference s id → is_referenced s id ≡ true
  unfolding is_referenced
  test-of_Reference (mention m i e) =
      let k =
        any-of_In (λ (m : Mention). m.entity_id == id) s.entity_mentions m i
          ((eq_iff m.entity_id id).1 e) in
      ground arith
  test-of_Reference (source r i e) =
      let k =
        any-of_In (λ (r : Relationship). r.source_id == id) s.relationships r i
          ((eq_iff r.source_id id).1 e) in
      ground arith
  test-of_Reference (target r i e) =
      let k =
        any-of_In (λ (r : Relationship). r.target_id == id) s.relationships r i
          ((eq_iff r.target_id id).1 e) in
      ground arith
  test-of_Reference (link l i e) =
      let k =
        any-of_In (λ (l : ChunkEntity). l.entity_id == id) s.chunk_entities l i
          ((eq_iff l.entity_id id).1 e) in
      ground arith

module _ {A : Type 0} where
  In-select :
      (f : A → Str) (p : A → Bool) (xs : List A) (x : A) (id : Str)
      → In x xs
      → p x ≡ true
      → f x ≡ id
      → In id (map f (keep p xs))
  In-select f p xs x id m h e =
      subst (λ j. In j (map f (keep p xs))) e (In-map f (keep p xs) x (In-keep p xs x m h))

  In-unselect :
      (p : A → Bool) (xs : List A) (x : A) → In x xs → p x ≡ false → In x (keep (λ y. not (p y)) xs)
  In-unselect p xs x m h = In-keep (λ y. not (p y)) xs x m (rw h)

module _ (filepath : Str) (s : Store) (id : Str) where
  -- A reference is the file's own, and then its entity is touched, or it stays.
  abbrev Stays : Type 0
  Stays = In id (file_entity_ids filepath s) ⊎ Reference (without_file filepath s) id

  touched_by :
      (a b c d : List Str) → In id a ⊎ In id b ⊎ In id c ⊎ In id d → In id (a ++ (b ++ (c ++ d)))
  touched_by a b c d (inl m) = In-append_left id a (b ++ (c ++ d)) m
  touched_by a b c d (inr (inl m)) =
      In-append_right id a (b ++ (c ++ d)) (In-append_left id b (c ++ d) m)
  touched_by a b c d (inr (inr (inl m))) =
      In-append_right id a (b ++ (c ++ d)) (In-append_right id b (c ++ d) (In-append_left id c d m))
  touched_by a b c d (inr (inr (inr m))) =
      In-append_right id a (b ++ (c ++ d))
        (In-append_right id b (c ++ d) (In-append_right id c d m))

  touched :
      In id (mention_ids filepath s)
        ⊎ In id (link_ids filepath s)
        ⊎ In id (source_ids filepath s)
        ⊎ In id (target_ids filepath s)
      → In id (file_entity_ids filepath s)
  unfolding file_entity_ids
  touched =
      touched_by (mention_ids filepath s) (link_ids filepath s) (source_ids filepath s)
        (target_ids filepath s)

  Reference-Stays : Reference s id → Stays
  unfolding mention_ids link_ids source_ids target_ids delete_links delete_chunks
      delete_relationships delete_mentions
  Reference-Stays (mention m i e) =
      let its = λ (m : Mention). m.source_doc == filepath in
      elim (Bool-cases (its m)) [
        | inl own ↦
            inl (touched (inl (In-select (λ m. m.entity_id) its s.entity_mentions m id i own e)))
        | inr other ↦ inr (mention m (In-unselect its s.entity_mentions m i other) e)
      ]
  Reference-Stays (link l i e) =
      let its = λ (l : ChunkEntity). chunk_of_file s filepath l.chunk_id in
      elim (Bool-cases (its l)) [
        | inl own ↦
            inl
              (touched (inr (inl (In-select (λ l. l.entity_id) its s.chunk_entities l id i own e))))
        | inr other ↦ inr (link l (In-unselect its s.chunk_entities l i other) e)
      ]
  Reference-Stays (source r i e) =
      let its = λ (r : Relationship). r.source_doc == filepath in
      elim (Bool-cases (its r)) [
        | inl own ↦ inl (
            touched
              (inr (inr (inl (In-select (λ r. r.source_id) its s.relationships r id i own e)))))
        | inr other ↦ inr (source r (In-unselect its s.relationships r i other) e)
      ]
  Reference-Stays (target r i e) =
      let its = λ (r : Relationship). r.source_doc == filepath in
      elim (Bool-cases (its r)) [
        | inl own ↦ inl (
            touched
              (inr (inr (inr (In-select (λ r. r.target_id) its s.relationships r id i own e)))))
        | inr other ↦ inr (target r (In-unselect its s.relationships r i other) e)
      ]

-- An entity that the garbage collection keeps is still referenced: only the entities that the file
-- touched can have lost their last reference.
kept-referenced :
    (filepath : Str) (s : Store) (e : Entity)
    → AllReferenced s
    → In e (delete_unreferenced (file_entity_ids filepath s) (without_file filepath s)).entities
    → is_referenced (without_file filepath s) e.id ≡ true
unfolding delete_unreferenced delete_links delete_chunks delete_relationships delete_mentions
kept-referenced filepath s e a m =
    let s₄ = without_file filepath s in
    let t = file_entity_ids filepath s in
    let (i, k) =
      In-of_keep (λ (e : Entity). not (contains e.id t) || is_referenced s₄ e.id) s.entities e m in
    elim (Reference-Stays filepath s e.id (Reference-of_test s e.id (a.at e i))) [
      | inl own ↦ let c = contains-of_In t e.id own in ground arith
      | inr other ↦ test-of_Reference s₄ e.id other
    ]

-- After `_delete_file_rows` every entity is still mentioned or referenced, if every entity was
-- before.
pub file_deleted-AllReferenced :
    (filepath : Str) (s : Store) → AllReferenced s → AllReferenced (file_deleted filepath s)
file_deleted-AllReferenced filepath s a = record {
  at = λ e m.
      let t = file_entity_ids filepath s in
      let s₅ = delete_unreferenced t (without_file filepath s) in
      let (e₀, i, p) =
        In-of_map (refresh_entity s₅ t) s₅.entities e
          (unfold delete_fingerprint refresh_entities in m) in
      let same : e.id ≡ e₀.id = ap (λ (x : Entity). x.id) p ∙ id-refresh_entity s₅ t e₀ in
      subst (λ j. is_referenced (file_deleted filepath s) j ≡ true) (sym same)
        (unfold is_referenced delete_fingerprint refresh_entities delete_unreferenced in
          kept-referenced filepath s e₀ a i);
}
