-- ===== src/Ingest/Markdown.antt =====
-- src/local_graph_rag/ingest/chunkers.py: markdown is split at its headers, then by paragraphs.
pub mod Sections
pub mod Paragraphs
pub mod Overshoot
use local_graph_rag.Prelude.{
  ℕ, zero, suc, ◌+◌, Bool, true, false, not, ◌&&◌, ◌||◌, Option, none, some, List, [], ◌∷◌, ◌++◌,
  map, flatten, length, is_empty, drop, keep, contains, leb, ltb, nat_eqb, nat_eq, is_some,
  if◌then◌else◌,
}
use local_graph_rag.Prelude.Text.{Str, codes, split_on, splitlines, join, strip}
use local_graph_rag.Settings.{Settings}
use local_graph_rag.Ingest.Chunkers.{chunk_text}

abbrev pub hash : ℕ
hash = b'#'

abbrev pub tick : ℕ
tick = b'`'

abbrev pub tilde : ℕ
tilde = b'~'

abbrev pub space : ℕ
space = b' '

-- How many times `c` stands at the start of the line.
unfoldable pub run_length : ℕ → Str → ℕ
run_length c [] = 0
run_length c (d ∷ ds) = let more = run_length c ds in if nat_eqb c d then more + 1 else 0

-- HEADER_PATTERN.match(line): one to six `#`, then a space.
unfoldable pub is_header : Str → Bool
unfolding run_length
is_header line =
    let n = run_length hash line in leb 1 n && leb n 6 && leb 1 (run_length space (drop n line))

-- A fence line: the code point of its marker, the marker's length, and the text after it.
pub record Fence : Type 0 where
  pub mark : ℕ
  pub width : ℕ
  pub rest : Str

-- The group `({3,})` of _FENCE_PATTERN for one mark, on a line whose indentation is gone.
unfoldable pub marker : ℕ → Str → Option Fence
unfolding run_length
marker c line =
    let n = run_length c line in
    if leb 3 n then some (record { mark = c; width = n; rest = drop n line }) else none

-- _FENCE_PATTERN.match(line): at most three spaces, then three or more backticks or tildes.
unfoldable pub match_fence : Str → Option Fence
unfolding run_length marker
match_fence line =
    let indent = run_length space line in
    let body = drop indent line in
    if leb indent 3
    then (if is_some (marker tick body) then marker tick body else marker tilde body)
    else none

-- `open_fence` after a fence line.
pub toggle : Option Fence → Fence → Option Fence
toggle none fence = if nat_eqb fence.mark tick && contains tick fence.rest then none else some fence
toggle (some opened) fence =
    if nat_eqb fence.mark opened.mark && leb opened.width fence.width && is_empty (strip fence.rest)
    then none
    else some opened

-- `open_fence` after any line.
pub next_fence : Option Fence → Str → Option Fence
unfolding toggle match_fence
next_fence open_fence line = elim (match_fence line) [
  | none ↦ open_fence
  | some fence ↦ toggle open_fence fence
]

-- The `elif`: a header outside every fence, where a section has begun.
pub starts_section : Option Fence → List Str → Str → Bool
unfolding match_fence is_header
starts_section open_fence current line =
    not (is_some (match_fence line))
    && (not (is_some open_fence) && is_header line)
    && not (is_empty current)

-- The loop of `_split_markdown_sections`, each section still a list of its lines.
pub sections_from : Option Fence → List Str → List Str → List (List Str)
unfolding starts_section next_fence
sections_from open_fence current [] = if is_empty current then [] else current ∷ []
sections_from open_fence current (line ∷ lines) =
    let cut = starts_section open_fence current line in
    (if cut then current ∷ [] else [])
    ++ sections_from (next_fence open_fence line) ((if cut then [] else current) ++ line ∷ []) lines

-- _split_markdown_sections
pub split_markdown_sections : Str → List Str
unfolding sections_from
split_markdown_sections text = map strip (
    keep (λ s. not (is_empty (strip s)))
      (map (join (codes "\n")) (sections_from none [] (splitlines false text))))

-- `(2 if buf else 0)`
abbrev pub gap : List Str → ℕ
gap [] = 0
gap (_ ∷ _) = 2

-- `buf and (buf_len + additional) > MAX_MD_CHUNK`
pub is_buf_full : Settings → List Str → ℕ → Str → Bool
is_buf_full cfg buf buf_len p =
    not (is_empty buf) && ltb cfg.max_chunk_chars (buf_len + (length p + gap buf))

-- `buf_len` and `buf` once a full buffer has been emptied.
pub after_flush : Settings → List Str → ℕ → Str → ℕ × List Str
unfolding is_buf_full
after_flush cfg buf buf_len p = if is_buf_full cfg buf buf_len p then (0, []) else (buf_len, buf)

-- `len(p) > MAX_MD_CHUNK`
pub is_long : Settings → Str → Bool
is_long cfg p = ltb cfg.max_chunk_chars (length p)

-- The `else` branch: the paragraph joins the buffer. The separator is counted where `buf_len`, and
-- not where `buf`, is truthy.
pub buffer : ℕ × List Str → Str → ℕ × List Str
buffer (buf_len, buf) p = (buf_len + (length p + (if leb 1 buf_len then 2 else 0)), buf ++ p ∷ [])

-- The loop of `_split_oversized_markdown_section`, with `buf` and `buf_len`.
pub paragraphs_from : Settings → List Str → ℕ → List Str → List Str
paragraphs_from cfg buf buf_len [] = if is_empty buf then [] else join (codes "\n\n") buf ∷ []
paragraphs_from cfg buf buf_len (p ∷ paragraphs) =
    let kept = after_flush cfg buf buf_len p in
    let next : ℕ × List Str = if is_long cfg p then kept else buffer kept p in
    (if is_buf_full cfg buf buf_len p then join (codes "\n\n") buf ∷ [] else [])
    ++ ((if is_long cfg p then chunk_text cfg p else [])
        ++ paragraphs_from cfg next.1 next.0 paragraphs)

-- _split_oversized_markdown_section
pub split_oversized_section : Settings → Str → List Str
unfolding paragraphs_from
split_oversized_section cfg section =
    if leb (length section) cfg.max_chunk_chars
    then section ∷ []
    else paragraphs_from cfg [] 0 (split_on (codes "\n\n") section)

-- chunk_markdown
pub chunk_markdown : Settings → Str → List Str
unfolding split_markdown_sections split_oversized_section
chunk_markdown cfg text = flatten (map (split_oversized_section cfg) (split_markdown_sections text))
