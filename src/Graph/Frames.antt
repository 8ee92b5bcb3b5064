-- ===== src/Graph/Frames.antt =====
-- What each transaction of the store leaves as it was, when it commits.
use mathlib.Core.Path.{subst}
use local_graph_rag.Prelude.{
  ◌≡◌, refl, sym, ap, ◌∙◌, Option, none, some, List, [], ◌∷◌, map, inl, inr, Bool-cases, nat_eq,
  list_eq,
}
use local_graph_rag.Prelude.Text.{Str}
use local_graph_rag.Graph.Tables.{
  Relationship, ChunkRow, ChunkEntity, Fingerprint, Store, has_entity, statement, each, ◌>>=◌,
}
use local_graph_rag.Graph.Integrity.{statement-result}
use local_graph_rag.Graph.Records.{
  EntityInput, insert_entity, upsert_mention, mention_row, refresh_entities, entity_rows,
  upsert_entities, upsert_relationship, upsert_relationships, insert_chunk, register_chunks,
  insert_link, link_chunks,
}
use local_graph_rag.Graph.Deletes.{
  file_entity_ids, delete_links, delete_chunks, delete_relationships, delete_mentions,
  delete_unreferenced, delete_fingerprint, delete_file_data,
}
use local_graph_rag.Graph.Deletes.Totality.{file_deleted}

pub >>=-eq-some {ℓ κ} :
    {A : Type ℓ} {B : Type κ} (m : Option A) (f : A → Option B) {b : B}
    → (m >>= f) ≡ some b
    → (a : A) × (m ≡ some a) × (f a ≡ some b)
>>=-eq-some none f h = cc
>>=-eq-some (some a) f h = (a, refl, h)

-- A statement and what follows it: if it all commits, the statement did its update.
pub statement-then :
    {B : Type 0} (update : Store → Store) (s : Store) (f : Store → Option B) {b : B}
    → (statement update s >>= f) ≡ some b
    → f (update s) ≡ some b
statement-then update s f {b} h =
    let (s', e, k) = >>=-eq-some (statement update s) f h in
    subst (λ t. f t ≡ some b) (statement-result update s s' e).0 k

-- A function of the store that no update of the run changes.
pub each-keeps :
    {A X : Type 0} (view : Store → X) (update : A → Store → Store)
    → ((a : A) (s : Store) → view (update a s) ≡ view s)
    → (rows : List A) (s s' : Store) → each update rows s ≡ some s'
    → view s' ≡ view s
unfolding each
each-keeps view update same [] s s' h = ap view (sym (some_inv h))
  where
    some_inv : {a b : Store} → some a ≡ some b → a ≡ b
    some_inv e = cc
each-keeps view update same (a ∷ rows) s s' h =
    each-keeps view update same rows (update a s) s'
      (statement-then (update a) s (each update rows) h)
    ∙ same a s

-- What `_delete_file_rows` commits.
pub delete_file_data-result :
    (filepath : Str) (s s' : Store)
    → delete_file_data filepath s ≡ some s'
    → s' ≡ file_deleted filepath s
unfolding delete_file_data
delete_file_data-result filepath s s' h =
    let touched = file_entity_ids filepath s in
    let s₁ = delete_links filepath s in
    let s₂ = delete_chunks filepath s₁ in
    let s₃ = delete_relationships filepath s₂ in
    let s₄ = delete_mentions filepath s₃ in
    let s₅ = delete_unreferenced touched s₄ in
    let s₆ = refresh_entities touched s₅ in
    let h₁ = statement-then (delete_links filepath) s _ h in
    let h₂ = statement-then (delete_chunks filepath) s₁ _ h₁ in
    let h₃ = statement-then (delete_relationships filepath) s₂ _ h₂ in
    let h₄ = statement-then (delete_mentions filepath) s₃ _ h₃ in
    let h₅ = statement-then (delete_unreferenced touched) s₄ _ h₄ in
    let h₆ = statement-then (refresh_entities touched) s₅ _ h₅ in
    (statement-result (delete_fingerprint filepath) s₆ s' h₆).0

-- The tables that the graph data of a file does not stand in.
abbrev pub file_tables : Store → List ChunkRow × List Fingerprint
file_tables s = (s.chunks, s.fingerprints)

insert_entity-file_tables :
    (row : Str × EntityInput) (s : Store)
    → file_tables (insert_entity (row.0, row.1.name) s) ≡ file_tables s
unfolding insert_entity
insert_entity-file_tables row s = elim (Bool-cases (has_entity s row.0)) [
  | inl old ↦ rw old
  | inr new ↦ rw new
]

pub upsert_entities-file_tables :
    (entities : List EntityInput) (doc : Str) (s : Store) (ids : List Str) (s' : Store)
    → upsert_entities entities doc s ≡ some (ids, s')
    → file_tables s' ≡ file_tables s
unfolding upsert_entities
upsert_entities-file_tables entities doc s ids s' h =
    let (rows, _, h₀) = >>=-eq-some (entity_rows entities) _ h in
    let (s₁, e₁, h₁) =
      >>=-eq-some (each (λ (row : Str × EntityInput). insert_entity (row.0, row.1.name)) rows s) _
        h₀ in
    let (s₂, e₂, h₂) =
      >>=-eq-some (each (λ (row : Str × EntityInput). upsert_mention (mention_row doc row)) rows s₁)
        _ h₁ in
    let (s₃, e₃, h₃) =
      >>=-eq-some (statement (refresh_entities (map (λ (row : Str × EntityInput). row.0) rows)) s₂)
        _ h₂ in
    let last : s' ≡ s₃ = cc h₃ in
    let k₁ =
      each-keeps file_tables (λ (row : Str × EntityInput). insert_entity (row.0, row.1.name))
        insert_entity-file_tables rows s s₁ e₁ in
    let k₂ =
      each-keeps file_tables (λ (row : Str × EntityInput). upsert_mention (mention_row doc row))
        (λ row t. unfold upsert_mention in refl) rows s₁ s₂ e₂ in
    let k₃ : file_tables s₃ ≡ file_tables s₂ =
      rw
        ((statement-result (refresh_entities (map (λ (row : Str × EntityInput). row.0) rows)) s₂ s₃
          e₃).0)
        (unfold refresh_entities in refl) in
    ap file_tables last ∙ k₃ ∙ k₂ ∙ k₁

pub upsert_relationships-file_tables :
    (rows : List Relationship) (s s' : Store)
    → upsert_relationships rows s ≡ some s'
    → file_tables s' ≡ file_tables s
unfolding upsert_relationships
upsert_relationships-file_tables rows s s' h =
    each-keeps file_tables upsert_relationship (λ r t. unfold upsert_relationship in refl) rows s s'
      h

pub link_chunks-file_tables :
    (rows : List ChunkEntity) (s s' : Store)
    → link_chunks rows s ≡ some s'
    → file_tables s' ≡ file_tables s
unfolding link_chunks
link_chunks-file_tables rows s s' h =
    each-keeps file_tables insert_link (λ r t. unfold insert_link in refl) rows s s' h

pub register_chunks-fingerprints :
    (rows : List ChunkRow) (s s' : Store)
    → register_chunks rows s ≡ some s'
    → s'.fingerprints ≡ s.fingerprints
unfolding register_chunks
register_chunks-fingerprints rows s s' h =
    each-keeps (λ (t : Store). t.fingerprints) insert_chunk (λ r t. unfold insert_chunk in refl)
      rows s s' h
