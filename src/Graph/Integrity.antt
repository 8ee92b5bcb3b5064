-- ===== src/Graph/Integrity.antt =====
-- The foreign keys of the graph store, as a predicate, and the statements that keep them.
use local_graph_rag.Prelude.{
  Bool, true, ◌&&◌, ◌≡◌, ◌↔◌, all, In, nat_eq, list_eq, arith, Bool-cases, inl, inr, some, sym,
}
use mathlib.Core.Path.{subst}
use local_graph_rag.Prelude.Members.{all-of_In, In-of_all}
use local_graph_rag.Graph.Tables.{
  Relationship, ChunkEntity, Mention, Store, has_entity, has_chunk, relationship_holds, link_holds,
  mention_holds, foreign_keys_hold, statement,
}

-- Every reference of a row is to a row that is there.
pub record IsSound (s : Store) : Type 0 where
  pub of_relationship :
      (r : Relationship)
      → In r s.relationships
      → (has_entity s r.source_id ≡ true) × (has_entity s r.target_id ≡ true)
  pub of_link :
      (l : ChunkEntity)
      → In l s.chunk_entities
      → (has_chunk s l.chunk_id ≡ true) × (has_entity s l.entity_id ≡ true)
  pub of_mention : (m : Mention) → In m s.entity_mentions → has_entity s m.entity_id ≡ true

and_iff : (a b : Bool) → ((a && b) ≡ true) ↔ ((a ≡ true) × (b ≡ true))
and_iff a b = ground arith

module _ (s : Store) where
  pub IsSound-of_keys : foreign_keys_hold s ≡ true → IsSound s
  unfolding foreign_keys_hold
  IsSound-of_keys h =
      let rels = (and_iff (all (relationship_holds s) s.relationships) _).0 h in
      let others = (and_iff (all (link_holds s) s.chunk_entities) _).0 rels.1 in
      record {
        of_relationship = λ r m.
            (and_iff (has_entity s r.source_id) _).0
              (In-of_all (relationship_holds s) s.relationships r rels.0 m);
        of_link = λ l m.
            (and_iff (has_chunk s l.chunk_id) _).0
              (In-of_all (link_holds s) s.chunk_entities l others.0 m);
        of_mention = λ x m. In-of_all (mention_holds s) s.entity_mentions x others.1 m;
      }

  pub foreign_keys-of_IsSound : IsSound s → foreign_keys_hold s ≡ true
  unfolding foreign_keys_hold
  foreign_keys-of_IsSound h = (and_iff (all (relationship_holds s) s.relationships) _).1 (
    all-of_In (relationship_holds s) s.relationships
        (λ r m. (and_iff (has_entity s r.source_id) _).1 (h.of_relationship r m)),
    (and_iff (all (link_holds s) s.chunk_entities) _).1 (
      all-of_In (link_holds s) s.chunk_entities
          (λ l m. (and_iff (has_chunk s l.chunk_id) _).1 (h.of_link l m)),
      all-of_In (mention_holds s) s.entity_mentions h.of_mention,
    ),
  )

-- A statement whose result is sound does not raise.
pub statement-of_IsSound :
    (update : Store → Store) (s : Store) → IsSound (update s) → statement update s ≡ some (update s)
unfolding statement
statement-of_IsSound update s h = rw (foreign_keys-of_IsSound (update s) h)

-- A statement that does not raise gives its update, and that is sound.
pub statement-result :
    (update : Store → Store) (s s' : Store)
    → statement update s ≡ some s'
    → (s' ≡ update s) × IsSound s'
unfolding statement
statement-result update s s' h = elim (Bool-cases (foreign_keys_hold (update s))) [
  | inl holds ↦
      let e : s' ≡ update s = cc (rw (holds, statement) at h) in
      (e, subst IsSound (sym e) (IsSound-of_keys (update s) holds))
  | inr broken ↦ absurd (cc (rw (broken, statement) at h))
]
