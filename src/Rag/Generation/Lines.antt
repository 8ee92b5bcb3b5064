-- ===== src/Rag/Generation/Lines.antt =====
-- The pieces of a streamed response.
use mathlib.Core.Path.{subst}
use local_graph_rag.Prelude.{
  ℕ, zero, suc, ◌+◌, ◌<◌, ◌≡◌, refl, sym, ap, ◌∙◌, Bool, true, false, not, arith, Option, none,
  some, List, [], ◌∷◌, ◌++◌, map, keep, take, is_empty, if◌then◌else◌,
}
use local_graph_rag.Prelude.Text.{Str, codes}
use local_graph_rag.Outside.{Json, str, bool, obj, field, end, get_field}
use local_graph_rag.Rag.Generation.{
  is_true, get_true, Finish, ended, broken, Streamed, Line, skipped, error_line, piece_line,
  read_value, read_line, with_piece, stream_from, acquired, stream_generate,
}

-- What Ollama sends for a piece of text.
abbrev pub reply : Str → Bool → Json
reply piece is_last =
    obj (field (codes "response") (str piece) (field (codes "done") (bool is_last) end))

-- The pieces that are not empty.
abbrev pub shown : List Str → List Json
shown texts = map str (keep (λ t. not (is_empty t)) texts)

module _ (loads : Str → Option Json) where
  -- A print of replies that `loads` reads back.
  pub record Prints (print : Str → Bool → Str) : Type 0 where
    pub not_empty : (t : Str) (d : Bool) → is_empty (print t d) ≡ false
    pub reads_back : (t : Str) (d : Bool) → loads (print t d) ≡ some (reply t d)

  piece_of : Str → Option Json
  piece_of t = if is_empty t then none else some (str t)

  read_value-reply : (t : Str) (d : Bool) → read_value (reply t d) ≡ piece_line (piece_of t) d
  unfolding read_value get_true get_field is_true piece_of
  read_value-reply [] true = refl
  read_value-reply [] false = refl
  read_value-reply (c ∷ cs) true = refl
  read_value-reply (c ∷ cs) false = refl

  shown-cons : (t : Str) (ts : List Str) → with_piece (piece_of t) (shown ts) ≡ shown (t ∷ ts)
  unfolding piece_of
  shown-cons [] ts = refl
  shown-cons (c ∷ cs) ts = refl

  -- The pieces of a line before those of the lines after it.
  pieces_of : Line → List Json → List Json
  pieces_of skipped later = later
  pieces_of error_line later = []
  pieces_of (piece_line piece is_last) later = with_piece piece (if is_last then [] else later)

  stream_from-line :
      (is_set : ℕ → Bool) (finish : Finish) (i : ℕ) (line : Str) (lines : List Str)
      → is_set i ≡ false
      → (stream_from loads is_set finish i (line ∷ lines)).pieces
        ≡ pieces_of (read_line loads line) (stream_from loads is_set finish (i + 1) lines).pieces
  unfolding stream_from pieces_of
  stream_from-line is_set finish i line lines unset =
      rw (unset, stream_from) (by_line (read_line loads line))
    where
      by_line :
          (l : Line)
          → (elim l as (λ x. Streamed) [
            | skipped ↦ stream_from loads is_set finish (i + 1) lines
            | error_line ↦ record { pieces = []; finish = broken }
            | piece_line piece is_last ↦ record {
              pieces =
                  with_piece piece (
                    if is_last then [] else (stream_from loads is_set finish (i + 1) lines).pieces);
              finish =
                  if is_last then ended else (stream_from loads is_set finish (i + 1) lines).finish;
            }
          ]).pieces
            ≡ pieces_of l (stream_from loads is_set finish (i + 1) lines).pieces
      by_line skipped = refl
      by_line error_line = refl
      by_line (piece_line p d) = refl

  stream_from-cut :
      (is_set : ℕ → Bool) (finish : Finish) (k i : ℕ) (lines : List Str)
      → ((j : ℕ) → j < k → is_set (i + j) ≡ false)
      → is_set (i + k) ≡ true
      → (stream_from loads is_set finish i lines).pieces
        ≡ (stream_from loads (λ j. false) finish i (take k lines)).pieces
  unfolding stream_from
  stream_from-cut is_set finish zero i [] unset set = refl
  stream_from-cut is_set finish (suc k) i [] unset set = refl
  stream_from-cut is_set finish zero i (line ∷ lines) unset set =
      let here : is_set i ≡ true = subst (λ n. is_set n ≡ true) (omega arith) set in
      rw (here, stream_from) refl
  stream_from-cut is_set finish (suc k) i (line ∷ lines) unset set =
      stream_from-line is_set finish i line lines
        (subst (λ n. is_set n ≡ false) (omega arith) (unset 0 (omega arith)))
      ∙ ap (pieces_of (read_line loads line)) (
          stream_from-cut is_set finish k (i + 1) lines
            (λ j lt. subst (λ n. is_set n ≡ false) (omega arith) (unset (suc j) (omega arith)))
            (subst (λ n. is_set n ≡ true) (omega arith) set))
      ∙ sym (stream_from-line (λ j. false) finish i line (take k lines) refl)

  -- The pieces of a stream that is first seen cancelled at line `k` are those of its first `k` lines.
  pub stream_generate-cut :
      (is_set : ℕ → Bool) (finish : Finish) (k : ℕ) (lines : List Str)
      → ((j : ℕ) → j < k → is_set j ≡ false)
      → is_set k ≡ true
      → (stream_generate loads is_set acquired true finish lines).pieces
        ≡ (stream_generate loads (λ j. false) acquired true finish (take k lines)).pieces
  unfolding stream_generate
  stream_generate-cut is_set finish k lines unset set =
      stream_from-cut is_set finish k 0 lines
        (λ j lt. subst (λ n. is_set n ≡ false) (omega arith) (unset j lt))
        (subst (λ n. is_set n ≡ true) (omega arith) set)

  module _ (print : Str → Bool → Str) (prints : Prints print) where
    read_line-print : (t : Str) (d : Bool) → read_line loads (print t d) ≡ piece_line (piece_of t) d
    unfolding read_line
    read_line-print t d = rw (prints.not_empty t d, prints.reads_back t d) (read_value-reply t d)

    stream_from-printed :
        (is_set : ℕ → Bool) (finish : Finish) (i : ℕ) (texts : List Str) (last : Str)
        (rest : List Str)
        → ((j : ℕ) → is_set j ≡ false)
        → stream_from loads is_set finish i
            (map (λ t. print t false) texts ++ print last true ∷ rest)
          ≡ record { pieces = shown (texts ++ last ∷ []); finish = ended }
    unfolding stream_from
    stream_from-printed is_set finish i [] last rest calm =
        rw (calm i, stream_from, read_line-print last true)
          (ap (λ p. record { pieces = p; finish = ended }) (shown-cons last []))
    stream_from-printed is_set finish i (t ∷ ts) last rest calm =
        rw
          (
            calm i,
            stream_from,
            read_line-print t false,
            stream_from-printed is_set finish (i + 1) ts last rest calm,
          )
          (ap (λ p. record { pieces = p; finish = ended }) (shown-cons t (ts ++ last ∷ [])))

    -- Of a response whose lines print pieces of text, the last one with `done`, the stream yields the
    -- pieces that are not empty, in order, and reads nothing after the last, if it is not cancelled.
    pub stream_generate-printed :
        (is_set : ℕ → Bool) (finish : Finish) (texts : List Str) (last : Str) (rest : List Str)
        → ((j : ℕ) → is_set j ≡ false)
        → stream_generate loads is_set acquired true finish
            (map (λ t. print t false) texts ++ print last true ∷ rest)
          ≡ record { pieces = shown (texts ++ last ∷ []); finish = ended }
    unfolding stream_generate
    stream_generate-printed is_set finish texts last rest calm =
        stream_from-printed is_set finish 0 texts last rest calm
