-- ===== src/Ingest/Chunkers.antt =====
-- src/local_graph_rag/ingest/chunkers.py: text is split into chunks by character windows.
pub mod Windows
pub mod Recursion
pub mod Overshoot
use local_graph_rag.Prelude.{
  ℕ, ◌+◌, ◌-◌, Bool, true, false, ◌&&◌, ◌||◌, List, [], ◌∷◌, ◌++◌, map, length, is_empty, keep, not,
  ltb, if◌then◌else◌,
}
use local_graph_rag.Prelude.Text.{Str, codes, split_on, join, strip, occurs}
use local_graph_rag.Settings.{Settings}

-- _SEPARATORS
abbrev pub separators : List Str
separators = codes "\n\n" ∷ codes "\n" ∷ codes " " ∷ [] ∷ []

-- `(sep_len if current else 0)`: what the separator before a further part adds.
abbrev pub joint : ℕ → List Str → ℕ
joint sep_len [] = 0
joint sep_len (_ ∷ _) = sep_len

-- The inner `while` of `_merge_splits`: parts leave the front of the window while its length is
-- above CHUNK_OVERLAP. `-` is the integers', since the length is never below what is dropped.
unfoldable pub drop_overlap : Settings → ℕ → ℕ → List Str → ℕ × List Str
drop_overlap cfg sep_len current_len [] = (current_len, [])
drop_overlap cfg sep_len current_len (part ∷ current) = elim (ltb cfg.chunk_overlap current_len) [
  | true ↦ drop_overlap cfg sep_len (current_len - (length part + joint sep_len current)) current
  | false ↦ (current_len, part ∷ current)
]

-- The test of `_merge_splits` for a window that the next part would make too long.
unfoldable pub is_full : Settings → ℕ → ℕ → List Str → Str → Bool
is_full cfg sep_len current_len current split =
    not (is_empty current)
    && ltb cfg.chunk_size (current_len + (length split + joint sep_len current))

-- What stays of the window when the next part comes: all of it, or the overlap.
unfoldable pub make_room : Settings → ℕ → ℕ → List Str → Str → ℕ × List Str
unfolding is_full drop_overlap
make_room cfg sep_len current_len current split =
    if is_full cfg sep_len current_len current split
    then drop_overlap cfg sep_len current_len current
    else (current_len, current)

-- The loop of `_merge_splits`, with the window `current` and its length `current_len`. A chunk
-- that is appended stands before those of the later rounds.
unfoldable pub merge_from : Settings → Str → ℕ → List Str → List Str → List Str
unfolding make_room
merge_from cfg separator current_len current [] =
    if is_empty current then [] else join separator current ∷ []
merge_from cfg separator current_len current (split ∷ splits) =
    let (kept_len, kept) = make_room cfg (length separator) current_len current split in
    (if is_full cfg (length separator) current_len current split
      then join separator current ∷ []
      else [])
    ++ merge_from cfg separator (kept_len + (length split + joint (length separator) kept))
        (kept ++ split ∷ []) splits

-- _merge_splits
unfoldable pub merge_splits : Settings → List Str → Str → List Str
unfolding merge_from
merge_splits cfg splits separator = merge_from cfg separator 0 [] splits

-- `if good: result.extend(_merge_splits(good, separator))`
unfoldable pub flush : Settings → Str → List Str → List Str
unfolding merge_splits
flush cfg separator good = if is_empty good then [] else merge_splits cfg good separator

-- The loop over the parts in `_recursive_split`; `split_long` is what is done with a part above
-- CHUNK_SIZE.
unfoldable pub assemble : Settings → Str → (Str → List Str) → List Str → List Str → List Str
unfolding flush
assemble cfg separator split_long good [] = flush cfg separator good
assemble cfg separator split_long good (part ∷ parts) = elim (ltb cfg.chunk_size (length part)) [
  | true ↦
      flush cfg separator good ++ (split_long part ++ assemble cfg separator split_long [] parts)
  | false ↦ assemble cfg separator split_long (good ++ part ∷ []) parts
]

-- `[s for s in text.split(separator) if s] if separator else list(text)`
unfoldable pub parts_of : Str → Str → List Str
parts_of [] text = map (λ c. c ∷ []) text
parts_of (s ∷ ss) text = keep (λ part. not (is_empty part)) (split_on (s ∷ ss) text)

-- `_recursive_split`, by recursion on the separators that are left to try. `last` is
-- `separators[-1]`, the separator when none of the list stands in the text.
unfoldable pub recursive_split : Settings → Str → List Str → Str → List Str
unfolding assemble parts_of
recursive_split cfg last [] text = assemble cfg last (λ part. part ∷ []) [] (parts_of last text)
recursive_split cfg last (sep ∷ remaining) text = elim (is_empty sep || occurs sep text) [
  | true ↦
      assemble cfg sep
        (λ part. if is_empty remaining then part ∷ [] else recursive_split cfg last remaining part)
        [] (parts_of sep text)
  | false ↦ recursive_split cfg last remaining text
]

-- chunk_text
unfoldable pub chunk_text : Settings → Str → List Str
unfolding recursive_split
chunk_text cfg text = if is_empty (strip text) then [] else recursive_split cfg [] separators text
