-- ===== src/Graph/Deletes/Totality.antt =====
-- `_delete_file_rows` never raises on a database whose foreign keys hold.
use mathlib.Core.Path.{subst}
use local_graph_rag.Prelude.{
  true, false, not, ◌&&◌, ◌||◌, ◌≡◌, refl, sym, List, [], ◌∷◌, map, any, In, nat_eq, list_eq, ◌==◌,
  ==-self, eq_iff, contains, arith, Bool-cases, inl, inr, some,
}
use local_graph_rag.Prelude.Text.{Str}
use local_graph_rag.Prelude.Members.{any-of_In, In-of_any, In-keep, In-of_keep}
use local_graph_rag.Graph.Tables.{
  Entity, Relationship, ChunkRow, ChunkEntity, Mention, Store, has_entity, has_chunk,
}
use local_graph_rag.Graph.Derived.{refresh_entity}
use local_graph_rag.Graph.Records.{refresh_entities}
use local_graph_rag.Graph.Integrity.{IsSound, statement-of_IsSound}
use local_graph_rag.Graph.Deletes.{
  chunk_of_file, file_entity_ids, is_referenced, delete_links, delete_chunks, delete_relationships,
  delete_mentions, delete_unreferenced, delete_fingerprint, delete_file_rows,
}

module _ (s : Store) (filepath : Str) (h : IsSound s) where
  delete_links-IsSound : IsSound (delete_links filepath s)
  unfolding delete_links
  delete_links-IsSound = record {
    of_relationship = h.of_relationship;
    of_link = λ l m.
        h.of_link l
          (In-of_keep (λ ce. not (chunk_of_file s filepath ce.chunk_id)) s.chunk_entities l m).0;
    of_mention = h.of_mention;
  }

  delete_relationships-IsSound : IsSound (delete_relationships filepath s)
  unfolding delete_relationships
  delete_relationships-IsSound = record {
    of_relationship = λ r m.
        h.of_relationship r
          (In-of_keep (λ q. not (q.source_doc == filepath)) s.relationships r m).0;
    of_link = h.of_link;
    of_mention = h.of_mention;
  }

  delete_mentions-IsSound : IsSound (delete_mentions filepath s)
  unfolding delete_mentions
  delete_mentions-IsSound = record {
    of_relationship = h.of_relationship;
    of_link = h.of_link;
    of_mention = λ x m.
        h.of_mention x (In-of_keep (λ q. not (q.source_doc == filepath)) s.entity_mentions x m).0;
  }

  delete_fingerprint-IsSound : IsSound (delete_fingerprint filepath s)
  unfolding delete_fingerprint
  delete_fingerprint-IsSound = record {
    of_relationship = h.of_relationship;
    of_link = h.of_link;
    of_mention = h.of_mention;
  }

  -- No link is to a chunk of the file.
  abbrev Unlinked : Type 0
  Unlinked = (l : ChunkEntity) → In l s.chunk_entities → chunk_of_file s filepath l.chunk_id ≡ false

  has_chunk-delete_chunks :
      (id : Str)
      → has_chunk s id ≡ true
      → chunk_of_file s filepath id ≡ false
      → has_chunk (delete_chunks filepath s) id ≡ true
  unfolding delete_chunks chunk_of_file
  has_chunk-delete_chunks id there other =
      let (c, m, e) = In-of_any (λ (c : ChunkRow). c.chunk_id == id) s.chunks there in
      elim (Bool-cases (c.filepath == filepath)) [
        | inl its ↦ absurd (
            cc (
              any-of_In (λ (c : ChunkRow). c.filepath == filepath && c.chunk_id == id) s.chunks c m
                (rw (its, e))))
        | inr else_ ↦
            any-of_In (λ (c : ChunkRow). c.chunk_id == id) _ c
              (In-keep (λ (c : ChunkRow). not (c.filepath == filepath)) s.chunks c m (rw else_)) e
      ]

  delete_chunks-IsSound : Unlinked → IsSound (delete_chunks filepath s)
  delete_chunks-IsSound free = record {
    of_relationship = unfold delete_chunks in h.of_relationship;
    of_link = λ l m.
        let k : In l s.chunk_entities = unfold delete_chunks in m in
        (
          has_chunk-delete_chunks l.chunk_id (h.of_link l k).0 (free l k),
          unfold delete_chunks in (h.of_link l k).1,
        );
    of_mention = unfold delete_chunks in h.of_mention;
  }

-- After `delete_links` no link is to a chunk of the file.
delete_links-Unlinked :
    (s : Store) (filepath : Str) (l : ChunkEntity)
    → In l (delete_links filepath s).chunk_entities
    → chunk_of_file (delete_links filepath s) filepath l.chunk_id ≡ false
unfolding delete_links
delete_links-Unlinked s filepath l m =
    let k =
      (In-of_keep (λ (ce : ChunkEntity). not (chunk_of_file s filepath ce.chunk_id))
        s.chunk_entities l m).1 in
    ground arith

module _ (s : Store) where
  has_entity-keep_referenced :
      (touched : List Str) (id : Str)
      → has_entity s id ≡ true
      → is_referenced s id ≡ true
      → has_entity (delete_unreferenced touched s) id ≡ true
  unfolding delete_unreferenced
  has_entity-keep_referenced touched id there used =
      let (e, m, k) = In-of_any (λ (e : Entity). e.id == id) s.entities there in
      let same : e.id ≡ id = (eq_iff e.id id).0 k in
      any-of_In (λ (e : Entity). e.id == id) _ e
        (In-keep (λ (e : Entity). not (contains e.id touched) || is_referenced s e.id) s.entities e
          m
          (let u : is_referenced s e.id ≡ true =
              subst (λ i. is_referenced s i ≡ true) (sym same) used in
            ground arith))
        k

  is_referenced-source :
      (r : Relationship) → In r s.relationships → is_referenced s r.source_id ≡ true
  unfolding is_referenced
  is_referenced-source r m =
      let k =
        any-of_In (λ (q : Relationship). q.source_id == r.source_id) s.relationships r m
          (==-self r.source_id) in
      ground arith

  is_referenced-target :
      (r : Relationship) → In r s.relationships → is_referenced s r.target_id ≡ true
  unfolding is_referenced
  is_referenced-target r m =
      let k =
        any-of_In (λ (q : Relationship). q.target_id == r.target_id) s.relationships r m
          (==-self r.target_id) in
      ground arith

  is_referenced-link :
      (l : ChunkEntity) → In l s.chunk_entities → is_referenced s l.entity_id ≡ true
  unfolding is_referenced
  is_referenced-link l m =
      let k =
        any-of_In (λ (q : ChunkEntity). q.entity_id == l.entity_id) s.chunk_entities l m
          (==-self l.entity_id) in
      ground arith

  is_referenced-mention :
      (x : Mention) → In x s.entity_mentions → is_referenced s x.entity_id ≡ true
  unfolding is_referenced
  is_referenced-mention x m =
      let k =
        any-of_In (λ (q : Mention). q.entity_id == x.entity_id) s.entity_mentions x m
          (==-self x.entity_id) in
      ground arith

  delete_unreferenced-IsSound :
      (touched : List Str) → IsSound s → IsSound (delete_unreferenced touched s)
  delete_unreferenced-IsSound touched h = record {
    of_relationship = λ r m.
        let k : In r s.relationships = unfold delete_unreferenced in m in
        (
          has_entity-keep_referenced touched r.source_id (h.of_relationship r k).0
              (is_referenced-source r k),
          has_entity-keep_referenced touched r.target_id (h.of_relationship r k).1
              (is_referenced-target r k),
        );
    of_link = λ l m.
        let k : In l s.chunk_entities = unfold delete_unreferenced in m in
        (
          unfold delete_unreferenced in (h.of_link l k).0,
          has_entity-keep_referenced touched l.entity_id (h.of_link l k).1 (is_referenced-link l k),
        );
    of_mention = λ x m.
        let k : In x s.entity_mentions = unfold delete_unreferenced in m in
        has_entity-keep_referenced touched x.entity_id (h.of_mention x k)
          (is_referenced-mention x k);
  }

  pub id-refresh_entity : (ids : List Str) (e : Entity) → (refresh_entity s ids e).id ≡ e.id
  unfolding refresh_entity
  id-refresh_entity ids e = ground arith

  pub has_entity-refresh :
      (ids : List Str) (id : Str) (es : List Entity)
      → any (λ (e : Entity). e.id == id) (map (refresh_entity s ids) es)
        ≡ any (λ (e : Entity). e.id == id) es
  has_entity-refresh ids id [] = refl
  has_entity-refresh ids id (e ∷ es) = simp (id-refresh_entity, has_entity-refresh ids id es)

  pub refresh_entities-IsSound : (ids : List Str) → IsSound s → IsSound (refresh_entities ids s)
  unfolding refresh_entities
  refresh_entities-IsSound ids h = record {
    of_relationship = λ r m. (
      rw (has_entity-refresh ids r.source_id s.entities) (h.of_relationship r m).0,
      rw (has_entity-refresh ids r.target_id s.entities) (h.of_relationship r m).1,
    );
    of_link = λ l m.
        ((h.of_link l m).0, rw (has_entity-refresh ids l.entity_id s.entities) (h.of_link l m).1);
    of_mention = λ x m. rw (has_entity-refresh ids x.entity_id s.entities) (h.of_mention x m);
  }

-- The rows that the deletes of `_delete_file_rows` leave, before the entities are looked at.
abbrev pub without_file : Str → Store → Store
without_file filepath s =
    delete_mentions filepath
      (delete_relationships filepath (delete_chunks filepath (delete_links filepath s)))

-- What `_delete_file_rows` does when no statement raises.
abbrev pub file_deleted : Str → Store → Store
file_deleted filepath s =
    let touched = file_entity_ids filepath s in
    delete_fingerprint filepath
      (refresh_entities touched (delete_unreferenced touched (without_file filepath s)))

-- On a database whose foreign keys hold, no statement of `_delete_file_rows` raises, and the
-- foreign keys hold afterwards.
pub delete_file_rows-total :
    (filepath : Str) (s : Store)
    → IsSound s
    → (delete_file_rows filepath s ≡ some (file_deleted filepath s))
      × IsSound (file_deleted filepath s)
unfolding delete_file_rows
delete_file_rows-total filepath s h =
    let touched = file_entity_ids filepath s in
    let s₁ = delete_links filepath s in
    let s₂ = delete_chunks filepath s₁ in
    let s₃ = delete_relationships filepath s₂ in
    let s₄ = delete_mentions filepath s₃ in
    let s₅ = delete_unreferenced touched s₄ in
    let s₆ = refresh_entities touched s₅ in
    let h₁ = delete_links-IsSound s filepath h in
    let h₂ = delete_chunks-IsSound s₁ filepath h₁ (delete_links-Unlinked s filepath) in
    let h₃ = delete_relationships-IsSound s₂ filepath h₂ in
    let h₄ = delete_mentions-IsSound s₃ filepath h₃ in
    let h₅ = delete_unreferenced-IsSound s₄ touched h₄ in
    let h₆ = refresh_entities-IsSound s₅ touched h₅ in
    let h₇ = delete_fingerprint-IsSound s₆ filepath h₆ in
    (
      rw
          (
            statement-of_IsSound (delete_links filepath) s h₁,
            statement-of_IsSound (delete_chunks filepath) s₁ h₂,
            statement-of_IsSound (delete_relationships filepath) s₂ h₃,
            statement-of_IsSound (delete_mentions filepath) s₃ h₄,
            statement-of_IsSound (delete_unreferenced touched) s₄ h₅,
            statement-of_IsSound (refresh_entities touched) s₅ h₆,
          )
          (statement-of_IsSound (delete_fingerprint filepath) s₆ h₇),
      h₇,
    )
