-- ===== src/Graph/Reads.antt =====
-- src/local_graph_rag/graph/record_store.py: the extraction cache, the fingerprints, and the reads.
pub mod Sorting
pub mod Ordering
pub mod Lookup
pub mod RoundTrips
use local_graph_rag.Prelude.{
  ℕ, Bool, not, ◌&&◌, Option, none, some, List, [], ◌∷◌, ◌++◌, map, flatten, keep, any, leb, nat_eq,
  list_eq, ◌==◌, if◌then◌else◌,
}
use local_graph_rag.Prelude.Text.{Str}
use local_graph_rag.Graph.Tables.{CacheRow, Fingerprint, Store, statement, ◌>>=◌}
use local_graph_rag.Graph.Derived.{str_ltb}

-- INSERT OR REPLACE INTO extraction_cache
unfoldable pub insert_cached : CacheRow → Store → Store
insert_cached row s = record s {
  extraction_cache =
      keep (λ c. not (c.filepath == row.filepath && c.batch_index == row.batch_index))
        s.extraction_cache
      ++ row ∷ [];
}

unfoldable pub cache_extraction : CacheRow → Store → Option Store
unfolding statement insert_cached
cache_extraction row = statement (insert_cached row)

-- The first row that passes a test (`fetchone`).
unfoldable pub find {ℓ} : {A : Type ℓ} → (A → Bool) → List A → Option A
find p [] = none
find p (x ∷ xs) = let rest = find p xs in if p x then some x else rest

unfoldable pub get_cached_extraction : Str → ℕ → Str → Store → Option Str
unfolding find
get_cached_extraction filepath batch_index prompt_sha256 s = do
  row ←
      find
        (λ c.
          c.filepath == filepath
          && c.batch_index == batch_index
          && c.prompt_sha256 == prompt_sha256)
        s.extraction_cache
  some row.result

unfoldable pub get_hash : Str → Store → Option Str
unfolding find
get_hash filepath s = do row ← find (λ f. f.filepath == filepath) s.fingerprints; some row.sha256

unfoldable pub set_fingerprint : Fingerprint → Store → Store
set_fingerprint f s = record s {
  fingerprints =
      if any (λ g. g.filepath == f.filepath) s.fingerprints
      then map (λ g. if g.filepath == f.filepath then f else g) s.fingerprints
      else s.fingerprints ++ f ∷ [];
}

unfoldable pub upsert_hash : Str → Str → Store → Option Store
unfolding statement set_fingerprint
upsert_hash filepath sha256 =
    statement (set_fingerprint (record { filepath = filepath; sha256 = sha256 }))

-- ORDER BY, as an insertion sort.
unfoldable pub insert_by {ℓ} : {A : Type ℓ} → (A → A → Bool) → A → List A → List A
insert_by le x [] = x ∷ []
insert_by le x (y ∷ ys) = let rest = insert_by le x ys in if le x y then x ∷ y ∷ ys else y ∷ rest

unfoldable pub sort_by {ℓ} : {A : Type ℓ} → (A → A → Bool) → List A → List A
unfolding insert_by
sort_by le [] = []
sort_by le (x ∷ xs) = insert_by le x (sort_by le xs)

unfoldable pub get_chunks_for_file : Str → Store → List Str
unfolding sort_by
get_chunks_for_file filepath s =
    map (λ c. c.chunk_id)
      (sort_by (λ c d. leb c.chunk_index d.chunk_index)
        (keep (λ c. c.filepath == filepath) s.chunks))

-- dict.fromkeys: the first of equal texts stays.
unfoldable pub dedupe : List Str → List Str
dedupe [] = []
dedupe (x ∷ xs) = x ∷ keep (λ y. not (y == x)) (dedupe xs)

unfoldable pub get_entities_by_chunk_ids : List Str → Store → List Str
unfolding sort_by dedupe str_ltb
get_entities_by_chunk_ids chunk_ids s = dedupe (
    flatten (
      map
        (λ id.
          sort_by (λ a b. not (str_ltb b a))
            (map (λ ce. ce.entity_id) (keep (λ ce. ce.chunk_id == id) s.chunk_entities)))
        chunk_ids))

unfoldable pub list_all_paths : Store → List Str
unfolding dedupe
list_all_paths s = dedupe (
    map (λ f. f.filepath) s.fingerprints
    ++ (map (λ c. c.filepath) s.chunks ++ map (λ c. c.filepath) s.extraction_cache))
