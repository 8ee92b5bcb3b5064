-- ===== src/Ingest/Markdown/Sections.antt =====
-- Where `_split_markdown_sections` cuts.
use local_graph_rag.Prelude.{
  ◌≡◌, ◌↔◌, refl, Bool, true, false, Option, none, List, [], ◌∷◌, ◌++◌, Bool-cases, inl, inr, arith,
}
use mathlib.Core.List.{append_assoc}
use mathlib.Core.Path.{subst}
use local_graph_rag.Prelude.Text.{Str}
use local_graph_rag.Ingest.Markdown.{
  Fence, next_fence, match_fence, is_header, starts_section, sections_from,
}

-- The fence that is open after the lines.
abbrev pub fence_after : Option Fence → List Str → Option Fence
fence_after open_fence [] = open_fence
fence_after open_fence (line ∷ lines) = fence_after (next_fence open_fence line) lines

-- A line that opens a section: a header, and neither a fence line nor inside a fence.
abbrev pub Opens : Option Fence → Str → Type 0
Opens open_fence line = (match_fence line ≡ none) × (open_fence ≡ none) × (is_header line ≡ true)

-- No line but the first opens a section, if the fence before the first line is `open_fence`.
abbrev pub Uncut : Option Fence → List Str → Type 0
Uncut open_fence [] = Unit
Uncut open_fence (line ∷ lines) =
    (¬ (Opens open_fence line)) × Uncut (next_fence open_fence line) lines

-- The sections of the lines of a document: together they are the lines, in order. Each holds at least
-- one line, opens with a header outside the fences (the first may open with any line), and holds no
-- other such header.
pub data Sections : Option Fence → Bool → List Str → List (List Str) → Type 0 where
  end : {open_fence : Option Fence} {first : Bool} → Sections open_fence first [] []
  section :
      {open_fence : Option Fence} {first : Bool} (line : Str) (lines after : List Str)
      {rest : List (List Str)}
      → (first ≡ false → Opens open_fence line)
      → Uncut (next_fence open_fence line) lines
      → Sections (fence_after (next_fence open_fence line) lines) false after rest
      → Sections open_fence first ((line ∷ lines) ++ after) ((line ∷ lines) ∷ rest)

starts_section-Opens :
    (o : Option Fence) (c : Str) (cs : List Str) (line : Str)
    → (starts_section o (c ∷ cs) line ≡ true) ↔ Opens o line
unfolding starts_section
starts_section-Opens o c cs line = (λ h. ground arith, λ h. ground arith)

starts_section-nil : (o : Option Fence) (line : Str) → starts_section o [] line ≡ false
unfolding starts_section
starts_section-nil o line = ground arith

fence_after-snoc :
    (o : Option Fence) (lines : List Str) (line : Str)
    → fence_after o (lines ++ line ∷ []) ≡ next_fence (fence_after o lines) line
fence_after-snoc o [] line = refl
fence_after-snoc o (l ∷ ls) line = fence_after-snoc (next_fence o l) ls line

Uncut-snoc :
    (o : Option Fence) (lines : List Str) (line : Str)
    → Uncut o lines
    → ¬ (Opens (fence_after o lines) line)
    → Uncut o (lines ++ line ∷ [])
Uncut-snoc o [] line u n = (n, tt)
Uncut-snoc o (l ∷ ls) line u n = (u.0, Uncut-snoc (next_fence o l) ls line u.1 n)

sections_from-Sections :
    (rest : List Str) (o : Option Fence) (first : Bool) (line : Str) (lines : List Str)
    → (first ≡ false → Opens o line)
    → Uncut (next_fence o line) lines
    → Sections o first
        ((line ∷ lines) ++ rest)
        (sections_from (fence_after (next_fence o line) lines) (line ∷ lines) rest)
unfolding sections_from
sections_from-Sections [] o first line lines h u = section line lines [] h u end
sections_from-Sections (next ∷ rest) o first line lines h u =
    let now = fence_after (next_fence o line) lines in
    elim (Bool-cases (starts_section now (line ∷ lines) next)) [
      | inl cut ↦ rw cut (
          section line lines (next ∷ rest) h u (
            sections_from-Sections rest now false next []
              (λ _. (starts_section-Opens now line lines next).0 cut) tt))
      | inr runs_on ↦
          rw (runs_on, ← fence_after-snoc (next_fence o line) lines next)
            (subst
              (λ all_lines. Sections o first all_lines (
                sections_from (fence_after (next_fence o line) (lines ++ next ∷ []))
                  (line ∷ (lines ++ next ∷ [])) rest))
              (append_assoc (line ∷ lines) (next ∷ []) rest)
              (sections_from-Sections rest o first line (lines ++ next ∷ []) h (
                Uncut-snoc (next_fence o line) lines next u
                  (λ opens. cc ((starts_section-Opens now line lines next).1 opens)))))
    ]

-- `_split_markdown_sections` cuts a document exactly at the headers outside the fenced blocks: its
-- sections together are its lines, in order, every section but the first opens with such a
-- header, and no section holds another.
pub split-Sections : (lines : List Str) → Sections none true lines (sections_from none [] lines)
unfolding sections_from
split-Sections [] = end
split-Sections (line ∷ lines) =
    rw (starts_section-nil none line)
      (sections_from-Sections lines none true line [] (λ h. absurd (cc h)) tt)
