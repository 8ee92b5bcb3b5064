-- ===== src/Graph/Deletes/Purge.antt =====
-- `purge_file` leaves no trace of its file.
use mathlib.Core.Path.{subst}
use local_graph_rag.Prelude.{
  true, not, ◌≡◌, List, [], ◌∷◌, map, keep, In, nat_eq, list_eq, ◌==◌, ==-self, arith, inl, inr,
  some,
}
use local_graph_rag.Prelude.Text.{Str}
use local_graph_rag.Prelude.Members.{In-of_keep, In-of_map, In-append}
use local_graph_rag.Graph.Tables.{ChunkRow, CacheRow, Fingerprint, Store}
use local_graph_rag.Graph.Records.{refresh_entities}
use local_graph_rag.Graph.Reads.{dedupe, list_all_paths}
use local_graph_rag.Graph.Integrity.{IsSound, statement-of_IsSound}
use local_graph_rag.Graph.Deletes.{
  delete_links, delete_chunks, delete_relationships, delete_mentions, delete_unreferenced,
  delete_fingerprint, delete_cached, purge_file,
}
use local_graph_rag.Graph.Deletes.Totality.{file_deleted, delete_file_rows-total}

In-of_dedupe : (xs : List Str) (x : Str) → In x (dedupe xs) → In x xs
unfolding dedupe
In-of_dedupe [] x m = m
In-of_dedupe (y ∷ ys) x (inl e) = inl e
In-of_dedupe (y ∷ ys) x (inr m) =
    inr (In-of_dedupe ys x (In-of_keep (λ z. not (z == y)) (dedupe ys) x m).0)

-- No row that is left after `DELETE … WHERE filepath = ?` has that path.
not-In-deleted :
    {A : Type 0} (path : A → Str) (filepath : Str) (rows : List A)
    → ¬ (In filepath (map path (keep (λ r. not (path r == filepath)) rows)))
not-In-deleted path filepath rows m =
    let (r, i, e) = In-of_map path (keep (λ r. not (path r == filepath)) rows) filepath m in
    let (_, other) = In-of_keep (λ r. not (path r == filepath)) rows r i in
    let own : (path r == filepath) ≡ true =
      subst (λ f. (f == filepath) ≡ true) e (==-self filepath) in
    ground arith

delete_cached-IsSound :
    (filepath : Str) (s : Store) → IsSound s → IsSound (delete_cached filepath s)
unfolding delete_cached
delete_cached-IsSound filepath s h = record {
  of_relationship = h.of_relationship;
  of_link = h.of_link;
  of_mention = h.of_mention;
}

purged-unlisted :
    (filepath : Str) (s : Store)
    → ¬ (In filepath (list_all_paths (delete_cached filepath (file_deleted filepath s))))
unfolding list_all_paths delete_cached delete_fingerprint refresh_entities delete_unreferenced
    delete_mentions delete_relationships delete_chunks delete_links
purged-unlisted filepath s m = elim (In-append _ _ filepath (In-of_dedupe _ filepath m)) [
  | inl f ↦ not-In-deleted (λ (f : Fingerprint). f.filepath) filepath s.fingerprints f
  | inr rest ↦ elim (In-append _ _ filepath rest) [
    | inl c ↦ not-In-deleted (λ (c : ChunkRow). c.filepath) filepath s.chunks c
    | inr c ↦ not-In-deleted (λ (c : CacheRow). c.filepath) filepath s.extraction_cache c
  ]
]

-- On a database whose foreign keys hold `purge_file` does not raise, keeps the foreign keys, and
-- leaves a store whose `list_all_paths` does not name the file.
pub purge_file-unlisted :
    (filepath : Str) (s : Store)
    → IsSound s
    → (s' : Store) × (purge_file filepath s ≡ some s')
      × IsSound s'
      × (¬ (In filepath (list_all_paths s')))
unfolding purge_file
purge_file-unlisted filepath s h =
    let (deleted, h') = delete_file_rows-total filepath s h in
    let h'' = delete_cached-IsSound filepath (file_deleted filepath s) h' in
    (
      delete_cached filepath (file_deleted filepath s),
      rw deleted (statement-of_IsSound (delete_cached filepath) (file_deleted filepath s) h''),
      h'',
      purged-unlisted filepath s,
    )
