-- ===== src/Graph/Reads/RoundTrips.antt =====
-- What the cache and the fingerprints give back.
use local_graph_rag.Prelude.{
  ◌≡◌, ◌≢◌, refl, sym, ap, ◌∙◌, Bool, true, false, not, ◌&&◌, Option, none, some, List, [], ◌∷◌,
  map, any, if◌then◌else◌, nat_eq, list_eq, ◌==◌, eq_iff, ==-self, Bool-cases, inl, inr, arith,
}
use local_graph_rag.Prelude.Text.{Str}
use local_graph_rag.Graph.Tables.{CacheRow, Fingerprint, Store, ◌>>=◌}
use local_graph_rag.Graph.Integrity.{statement-result}
use local_graph_rag.Graph.Reads.{
  insert_cached, cache_extraction, find, get_cached_extraction, get_hash, set_fingerprint,
  upsert_hash,
}
use local_graph_rag.Graph.Reads.Lookup.{
  find-replaced, find-one, find-other, find-append_skip, find-append_other,
}

and_true : (a b c : Bool) → a ≡ true → b ≡ true → c ≡ true → (a && b && c) ≡ true
and_true a b c ha hb hc = ground arith

and_last : (a b c : Bool) → c ≡ false → (a && b && c) ≡ false
and_last a b c h = ground arith

and_two : (a b c : Bool) → (a && b && c) ≡ true → (a && b) ≡ true
and_two a b c h = ground arith

-- After a reply is cached, the lookup of its file, batch and request gives it, and the lookup of the
-- file and batch with another request gives nothing.
pub cached-found :
    (row : CacheRow) (other : Str) (s s' : Store)
    → cache_extraction row s ≡ some s'
    → row.prompt_sha256 ≢ other
    → (get_cached_extraction row.filepath row.batch_index row.prompt_sha256 s' ≡ some row.result)
      × (get_cached_extraction row.filepath row.batch_index other s' ≡ none)
unfolding cache_extraction insert_cached get_cached_extraction
cached-found row other s s' h differ =
    let e : s' ≡ insert_cached row s = (statement-result (insert_cached row) s s' h).0 in
    rw e (ap result_of (old row.prompt_sha256 ∙ found), ap result_of (old other ∙ missed))
  where
    result_of : Option CacheRow → Option Str
    result_of o = o >>= λ c. some c.result

    is_asked : Str → CacheRow → Bool
    is_asked sha c =
        c.filepath == row.filepath && c.batch_index == row.batch_index && c.prompt_sha256 == sha

    old :
        (sha : Str)
        → find (is_asked sha) (insert_cached row s).extraction_cache
          ≡ find (is_asked sha) (row ∷ [])
    old sha =
        find-replaced (is_asked sha)
          (λ (c : CacheRow). not (c.filepath == row.filepath && c.batch_index == row.batch_index))
          s.extraction_cache (row ∷ [])
          (λ c h. ap not (
            and_two (c.filepath == row.filepath) (c.batch_index == row.batch_index)
              (c.prompt_sha256 == sha) h))

    found : find (is_asked row.prompt_sha256) (row ∷ []) ≡ some row
    found = find-one (is_asked row.prompt_sha256) row (
        and_true (row.filepath == row.filepath) (row.batch_index == row.batch_index)
          (row.prompt_sha256 == row.prompt_sha256) (==-self row.filepath) (==-self row.batch_index)
          (==-self row.prompt_sha256))

    missed : find (is_asked other) (row ∷ []) ≡ none
    missed = find-other (is_asked other) row (elim (Bool-cases (row.prompt_sha256 == other)) [
      | inl e ↦ absurd (differ ((eq_iff row.prompt_sha256 other).0 e))
      | inr e ↦
          and_last (row.filepath == row.filepath) (row.batch_index == row.batch_index)
            (row.prompt_sha256 == other) e
    ])

abbrev is_path : Str → Fingerprint → Bool
is_path filepath g = g.filepath == filepath

find-mapped :
    (f : Fingerprint) (rows : List Fingerprint)
    → any (is_path f.filepath) rows ≡ true
    → find (is_path f.filepath) (map (λ g. if g.filepath == f.filepath then f else g) rows) ≡ some f
unfolding find
find-mapped f [] h = absurd (cc h)
find-mapped f (g ∷ rows) h = elim (Bool-cases (g.filepath == f.filepath)) [
  | inl e ↦ rw (e, ==-self f.filepath) refl
  | inr e ↦ rw (e, e) (find-mapped f rows (rw (e, any) at h))
]

find-mapped_other :
    (f : Fingerprint) (filepath : Str) (rows : List Fingerprint)
    → f.filepath ≢ filepath
    → find (is_path filepath) (map (λ g. if g.filepath == f.filepath then f else g) rows)
      ≡ find (is_path filepath) rows
unfolding find
find-mapped_other f filepath [] differ = refl
find-mapped_other f filepath (g ∷ rows) differ = elim (Bool-cases (g.filepath == f.filepath)) [
  | inl e ↦
      rw (e, unlike f.filepath refl, unlike g.filepath ((eq_iff g.filepath f.filepath).0 e))
        (find-mapped_other f filepath rows differ)
  | inr e ↦ elim (Bool-cases (g.filepath == filepath)) [
    | inl e' ↦ rw (e, e') refl
    | inr e' ↦ rw (e, e') (find-mapped_other f filepath rows differ)
  ]
]
  where
    unlike : (path : Str) → path ≡ f.filepath → (path == filepath) ≡ false
    unlike path same = elim (Bool-cases (path == filepath)) [
      | inl e ↦ absurd (differ (sym same ∙ (eq_iff path filepath).0 e))
      | inr e ↦ e
    ]

unlike : (a b : Str) → a ≢ b → (a == b) ≡ false
unlike a b differ = elim (Bool-cases (a == b)) [
  | inl e ↦ absurd (differ ((eq_iff a b).0 e))
  | inr e ↦ e
]

-- After `upsert_hash` the file has that hash, and every other file has the one it had.
pub upserted-hash :
    (filepath sha other : Str) (s s' : Store)
    → upsert_hash filepath sha s ≡ some s'
    → filepath ≢ other
    → (get_hash filepath s' ≡ some sha) × (get_hash other s' ≡ get_hash other s)
unfolding upsert_hash set_fingerprint get_hash
upserted-hash filepath sha other s s' h differ =
    let e : s' ≡ set_fingerprint f s = (statement-result (set_fingerprint f) s s' h).0 in
    rw e (elim (Bool-cases (any (is_path filepath) s.fingerprints)) [
      | inl known ↦ rw known (
        ap hash_of (find-mapped f s.fingerprints known),
        ap hash_of (find-mapped_other f other s.fingerprints differ),
      )
      | inr new ↦ rw new (
        ap hash_of (
            find-append_skip (is_path filepath) s.fingerprints (f ∷ []) new
            ∙ find-one (is_path filepath) f (==-self filepath)),
        ap hash_of
            (find-append_other (is_path other) s.fingerprints f (unlike filepath other differ)),
      )
    ])
  where
    f : Fingerprint
    f = record { filepath = filepath; sha256 = sha }

    hash_of : Option Fingerprint → Option Str
    hash_of o = o >>= λ row. some row.sha256
