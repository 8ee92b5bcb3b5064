-- ===== src/Ingest/GitHistory/Names.antt =====
-- The names of files that git prints, and which of the lines `parse_log` keeps.
use mathlib.Core.Path.{subst}
use mathlib.Core.List.{append_assoc, append-nil}
use local_graph_rag.Prelude.{
  ℕ, ◌≡◌, refl, sym, ap, ◌∙◌, inl, inr, true, false, not, Bool-cases, List, [], ◌∷◌, ◌++◌, map,
  flatten, keep, is_empty, All, In, In-append_right, nat_eqb, arith,
}
use local_graph_rag.Prelude.Text.{Str, is_space, strip, is_line_break, splitlines_from, splitlines}
use local_graph_rag.Prelude.Strip.{IsStripped, strip_of-IsStripped}

abbrev pub printed_lines : List Str → Str
printed_lines lines = flatten (map (λ (l : Str). l ++ 10 ∷ []) lines)

abbrev pub IsLine : Str → Type 0
IsLine l = All (λ c. is_line_break c ≡ false) l

-- The lines that are kept are those with a code point that is no white space.
pub data KeptLines : List Str → List Str → Type 0 where
  no_lines : KeptLines [] []
  name_line :
      (l : Str) (lines names : List Str) (c : ℕ)
      → In c l
      → is_space c ≡ false
      → KeptLines lines names
      → KeptLines (l ∷ lines) (l ∷ names)
  blank_line :
      (l : Str) (lines names : List Str)
      → All (λ c. is_space c ≡ true) l
      → KeptLines lines names
      → KeptLines (l ∷ lines) names

not_return : (c : ℕ) → is_line_break c ≡ false → nat_eqb c 13 ≡ false
unfolding is_line_break
not_return c h = ground arith

splitlines-line :
    (l line rest : Str)
    → IsLine l
    → splitlines_from false line (l ++ 10 ∷ rest) ≡ (line ++ l) ∷ splitlines_from false [] rest
unfolding splitlines_from is_line_break
splitlines-line [] line [] w = ap (λ x. x ∷ []) (sym (append-nil line))
splitlines-line [] line (d ∷ rest) w =
    ap (λ x. x ∷ splitlines_from false [] (d ∷ rest)) (sym (append-nil line))
splitlines-line (c ∷ []) line rest (own, _) =
    rw (not_return c own, splitlines_from, own)
      (splitlines-line [] (line ++ c ∷ []) rest tt
        ∙ ap (λ x. x ∷ splitlines_from false [] rest) (append-nil (line ++ c ∷ [])))
splitlines-line (c ∷ d ∷ cs) line rest (own, w) =
    rw (not_return c own, splitlines_from, own)
      (splitlines-line (d ∷ cs) (line ++ c ∷ []) rest w
        ∙ ap (λ x. x ∷ splitlines_from false [] rest) (append_assoc line (c ∷ []) (d ∷ cs)))

pub splitlines-printed :
    (lines : List Str) → All IsLine lines → splitlines false (printed_lines lines) ≡ lines
unfolding splitlines splitlines_from flatten
splitlines-printed [] a = refl
splitlines-printed (l ∷ lines) a =
    ap (splitlines_from false []) (append_assoc l (10 ∷ []) (printed_lines lines))
    ∙ splitlines-line l [] (printed_lines lines) a.0
    ∙ ap (λ rest. l ∷ rest) (splitlines-printed lines a.1)

All-append_pass :
    (xs ys : Str)
    → All (λ c. is_space c ≡ true) xs
    → All (λ c. is_space c ≡ true) ys
    → All (λ c. is_space c ≡ true) (xs ++ ys)
All-append_pass [] ys a b = b
All-append_pass (x ∷ xs) ys a b = (a.0, All-append_pass xs ys a.1 b)

blank : (l t : Str) → IsStripped is_space l t → is_empty t ≡ true → All (λ c. is_space c ≡ true) l
blank l [] s e =
    subst (λ x. All (λ c. is_space c ≡ true) x) (sym s.stands)
      (All-append_pass s.before s.after s.before_pass s.after_pass)
blank l (c ∷ cs) s e = absurd (cc e)

not_blank :
    (l t : Str)
    → IsStripped is_space l t
    → is_empty t ≡ false
    → (c : ℕ) × (In c l × (is_space c ≡ false))
not_blank l [] s e = absurd (cc e)
not_blank l (c ∷ cs) s e = (
  c,
  (
    subst (λ x. In c x) (sym s.stands)
        (In-append_right c s.before ((c ∷ cs) ++ s.after) (inl refl)),
    s.starts_clean,
  ),
)

pub strip-IsStripped : (s : Str) → IsStripped is_space s (strip s)
unfolding strip
strip-IsStripped s = strip_of-IsStripped is_space s

pub keep-KeptLines :
    (lines : List Str) → KeptLines lines (keep (λ line. not (is_empty (strip line))) lines)
keep-KeptLines [] = no_lines
keep-KeptLines (l ∷ lines) = elim (Bool-cases (is_empty (strip l))) [
  | inl e ↦
      rw (e, keep)
        (blank_line l lines _ (blank l (strip l) (strip-IsStripped l) e) (keep-KeptLines lines))
  | inr e ↦
      let (c, (m, n)) = not_blank l (strip l) (strip-IsStripped l) e in
      rw (e, keep) (name_line l lines _ c m n (keep-KeptLines lines))
]
