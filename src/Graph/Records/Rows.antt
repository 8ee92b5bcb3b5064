-- ===== src/Graph/Records/Rows.antt =====
-- What each statement on mentions, relationships, chunks and links does to the foreign keys.
use mathlib.Core.Path.{subst}
use local_graph_rag.Prelude.{
  ◌+◌, Bool, true, false, not, ◌≡◌, refl, sym, List, [], ◌∷◌, ◌++◌, map, keep, any, In, nat_eq,
  list_eq, ◌==◌, ==-self, eq_iff, inl, inr, ◌∙◌, Bool-cases, if◌then◌else◌, In-append_left,
  In-append_right,
}
use local_graph_rag.Prelude.Members.{any-of_In, In-of_any, In-keep, In-append, In-of_map}
use local_graph_rag.Graph.Tables.{
  Relationship, ChunkRow, ChunkEntity, Mention, Store, has_entity, has_chunk,
}
use local_graph_rag.Graph.Integrity.{IsSound}
use local_graph_rag.Graph.Records.{
  upsert_mention, same_mention, upsert_relationship, same_relationship, insert_chunk, insert_link,
}
use local_graph_rag.Graph.Records.Steps.{Extends, IsSound-of_Extends, IsStep, Ran, has_both_mono}

-- A property of the rows of a table, after an upsert.
module _ {A : Type 0} (P : A → Type 0) (same : A → Bool) (f : A → A) (new : A) (rows : List A) where
  of_map :
      ((y : A) → In y rows → P y × P (f y))
      → (x : A) → In x (map (λ n. if same n then f n else n) rows)
      → P x
  of_map old x m =
      let (y, i, e) = In-of_map (λ n. if same n then f n else n) rows x m in
      subst P (sym e) (branch y i (same y))
    where
      branch : (y : A) → In y rows → (b : Bool) → P (if b then f y else y)
      branch y i true = (old y i).1
      branch y i false = (old y i).0

  of_append :
      P new → ((y : A) → In y rows → P y × P (f y)) → (x : A) → In x (rows ++ new ∷ []) → P x
  of_append p old x m = elim (In-append rows (new ∷ []) x m) [
    | inl i ↦ (old x i).0
    | inr (inl e) ↦ subst P (sym e) p
    | inr (inr none_left) ↦ absurd none_left
  ]

  of_upserted :
      P new
      → ((y : A) → In y rows → P y × P (f y))
      → (x : A)
      → In x (if any same rows then map (λ n. if same n then f n else n) rows else rows ++ new ∷ [])
      → P x
  of_upserted p old x = elim (Bool-cases (any same rows)) [
    | inl found ↦ rw found (of_map old x)
    | inr fresh ↦ rw fresh (of_append p old x)
  ]

-- A property of the rows of a table, after an insert that may be ignored.
of_ignored :
    {A : Type 0} (P : A → Type 0) (new : A) (rows : List A) (b : Bool)
    → P new
    → ((y : A) → In y rows → P y)
    → (x : A) → In x (if b then rows else rows ++ new ∷ [])
    → P x
of_ignored P new rows true p old x m = old x m
of_ignored P new rows false p old x m = elim (In-append rows (new ∷ []) x m) [
  | inl i ↦ old x i
  | inr (inl e) ↦ subst P (sym e) p
  | inr (inr none_left) ↦ absurd none_left
]

abbrev pub MentionHolds : Mention → Store → Type 0
MentionHolds m s = has_entity s m.entity_id ≡ true

pub upsert_mention-run :
    (m : Mention) (s : Store) → IsSound s → MentionHolds m s → Ran (λ m s. Unit) upsert_mention m s
unfolding upsert_mention
upsert_mention-run m s h q = (
  record {
    of_relationship = h.of_relationship;
    of_link = h.of_link;
    of_mention =
        of_upserted (λ n. has_entity s n.entity_id ≡ true) (same_mention m) (λ n. m) m
          s.entity_mentions q (λ n i. (h.of_mention n i, q));
  },
  record { entity = λ id k. k; chunk = λ id k. k },
  tt,
)

pub upsert_mention-step : IsStep upsert_mention MentionHolds (λ m s. Unit)
upsert_mention-step = record {
  runs = upsert_mention-run;
  keeps_pre = λ m s s' x q. x.entity m.entity_id q;
  keeps_result = λ m s s' x r. tt;
}

abbrev pub EndsHold : Relationship → Store → Type 0
EndsHold r s = (has_entity s r.source_id ≡ true) × (has_entity s r.target_id ≡ true)

upsert_relationship-run :
    (r : Relationship) (s : Store)
    → IsSound s
    → EndsHold r s
    → Ran (λ r s. Unit) upsert_relationship r s
unfolding upsert_relationship
upsert_relationship-run r s h q = (
  record {
    of_relationship =
        of_upserted (λ p. (has_entity s p.source_id ≡ true) × (has_entity s p.target_id ≡ true))
          (same_relationship r) (λ p. record p { weight = p.weight + 1 }) (record r { weight = 1 })
          s.relationships q (λ p i. (h.of_relationship p i, h.of_relationship p i));
    of_link = h.of_link;
    of_mention = h.of_mention;
  },
  record { entity = λ id k. k; chunk = λ id k. k },
  tt,
)

pub upsert_relationship-step : IsStep upsert_relationship EndsHold (λ r s. Unit)
upsert_relationship-step = record {
  runs = upsert_relationship-run;
  keeps_pre = λ r s s' x q. has_both_mono s s' x r.source_id r.target_id q;
  keeps_result = λ r s s' x k. tt;
}

abbrev pub HasChunk : ChunkRow → Store → Type 0
HasChunk c s = has_chunk s c.chunk_id ≡ true

insert_chunk-run : (c : ChunkRow) (s : Store) → IsSound s → Ran HasChunk insert_chunk c s
unfolding insert_chunk
insert_chunk-run c s h =
    let others = λ (d : ChunkRow). not (d.chunk_id == c.chunk_id) in
    let s' : Store = record s { chunks = keep others s.chunks ++ c ∷ [] } in
    let own : In c (keep others s.chunks ++ c ∷ []) =
      In-append_right c (keep others s.chunks) (c ∷ []) (inl refl) in
    let x : Extends s s' = record {
      entity = λ id k. k;
      chunk = λ id k.
          let (d, i, e) = In-of_any (λ (d : ChunkRow). d.chunk_id == id) s.chunks k in
          elim (Bool-cases (d.chunk_id == c.chunk_id)) [
            | inl replaced ↦
                let same : c.chunk_id ≡ id =
                  sym ((eq_iff d.chunk_id c.chunk_id).0 replaced) ∙ (eq_iff d.chunk_id id).0 e in
                any-of_In (λ (d : ChunkRow). d.chunk_id == id) (keep others s.chunks ++ c ∷ []) c
                  own ((eq_iff c.chunk_id id).1 same)
            | inr stays ↦
                any-of_In (λ (d : ChunkRow). d.chunk_id == id) (keep others s.chunks ++ c ∷ []) d
                  (In-append_left d (keep others s.chunks) (c ∷ [])
                    (In-keep others s.chunks d i (rw stays)))
                  e
          ];
    } in
    (
      IsSound-of_Extends s s' x refl refl refl h,
      x,
      any-of_In (λ (d : ChunkRow). d.chunk_id == c.chunk_id) (keep others s.chunks ++ c ∷ []) c own
          (==-self c.chunk_id),
    )

pub insert_chunk-step : IsStep insert_chunk (λ c s. Unit) HasChunk
insert_chunk-step = record {
  runs = λ c s h q. insert_chunk-run c s h;
  keeps_pre = λ c s s' x q. tt;
  keeps_result = λ c s s' x r. x.chunk c.chunk_id r;
}

abbrev pub LinkHolds : ChunkEntity → Store → Type 0
LinkHolds l s = (has_chunk s l.chunk_id ≡ true) × (has_entity s l.entity_id ≡ true)

insert_link-run :
    (l : ChunkEntity) (s : Store) → IsSound s → LinkHolds l s → Ran (λ l s. Unit) insert_link l s
unfolding insert_link
insert_link-run l s h q = (
  record {
    of_relationship = h.of_relationship;
    of_link =
        of_ignored (λ k. (has_chunk s k.chunk_id ≡ true) × (has_entity s k.entity_id ≡ true)) l
          s.chunk_entities _ q h.of_link;
    of_mention = h.of_mention;
  },
  record { entity = λ id k. k; chunk = λ id k. k },
  tt,
)

pub insert_link-step : IsStep insert_link LinkHolds (λ l s. Unit)
insert_link-step = record {
  runs = insert_link-run;
  keeps_pre = λ l s s' x q. (x.chunk l.chunk_id q.0, x.entity l.entity_id q.1);
  keeps_result = λ l s s' x r. tt;
}
