-- ===== src/Ingest/GitHistory/Indented.antt =====
-- The lines of a body in a history document.
use local_graph_rag.Prelude.{
  ℕ, ◌≤◌, ◌≡◌, refl, false, none, List, [], ◌∷◌, ◌++◌, map, All, is_empty, leb, Bool-cases, inl,
  inr, arith,
}
use local_graph_rag.Prelude.Text.{Str, codes, strip, splitlines}
use local_graph_rag.Ingest.Markdown.{space, run_length, is_header, match_fence}
use local_graph_rag.Ingest.GitHistory.{indent, body_lines}

-- The line neither opens a section nor a fence.
abbrev pub IsInert : Str → Type 0
IsInert line = (is_header line ≡ false) × (match_fence line ≡ none)

run_length-four : (line : Str) → 4 ≤ run_length space (codes "    " ++ line)
unfolding run_length
run_length-four line = omega arith

too_far : (n : ℕ) → 4 ≤ n → leb n 3 ≡ false
too_far n le = ground arith

match_fence-indented : (line : Str) → match_fence (codes "    " ++ line) ≡ none
unfolding match_fence
match_fence-indented line =
    rw (too_far (run_length space (codes "    " ++ line)) (run_length-four line), match_fence) refl

indent-IsInert : (line : Str) → IsInert (indent line)
unfolding indent
indent-IsInert line = elim (Bool-cases (is_empty (strip line))) [
  | inl e ↦ rw (e, IsInert) (unfold is_header match_fence run_length in (refl, refl))
  | inr e ↦
      rw (e, IsInert) (unfold is_header match_fence run_length in (refl, match_fence-indented line))
]

IsInert-lines : (lines : List Str) → All IsInert (map indent lines)
IsInert-lines [] = tt
IsInert-lines (line ∷ lines) = (indent-IsInert line, IsInert-lines lines)

-- No line that `render_history` writes for the body of a commit is a header or a fence to the
-- Markdown chunker.
pub body_lines-IsInert : (body : Str) → All IsInert (body_lines body)
unfolding body_lines
body_lines-IsInert body = elim (Bool-cases (is_empty body)) [
  | inl e ↦ rw (e, All) tt
  | inr e ↦
      rw (e, All)
        (
          unfold is_header match_fence run_length in (refl, refl),
          IsInert-lines (splitlines false body),
        )
]
