-- ===== src/Prelude/Strip.antt =====
-- `str.strip` takes everything at once: a stripped text is left as it is.
use Prim.Native.Nat.{ℕ}
use mathlib.Core.Path.{◌≡◌, refl, ap, ◌∙◌}
use mathlib.Core.Bool.{Bool, true, false, ◌&&◌}
use mathlib.Core.Logic.{inl, inr}
use mathlib.Core.List.{[], ◌∷◌, ◌++◌}
use native.Mathlib.Omega.{arith}
use local_graph_rag.Prelude.Tests.{Bool-cases, if◌then◌else◌}
use local_graph_rag.Prelude.Lists.{is_empty, All}
use local_graph_rag.Prelude.Text.{Str, drop_while, rstrip, strip_of, strip}

module _ (p : ℕ → Bool) where
  abbrev pub StartsClean : Str → Type 0
  StartsClean [] = Unit
  StartsClean (c ∷ cs) = p c ≡ false

  -- The last code point fails the test too.
  abbrev pub EndsClean : Str → Type 0
  EndsClean [] = Unit
  EndsClean (c ∷ []) = p c ≡ false
  EndsClean (c ∷ d ∷ ds) = EndsClean (d ∷ ds)

  drop_while-StartsClean : (s : Str) → StartsClean (drop_while p s)
  unfolding drop_while
  drop_while-StartsClean [] = tt
  drop_while-StartsClean (c ∷ cs) = elim (Bool-cases (p c)) [
    | inl drops ↦ rw (drops, StartsClean) (drop_while-StartsClean cs)
    | inr stays ↦ rw (stays, StartsClean) stays
  ]

  rstrip-StartsClean : (s : Str) → StartsClean s → StartsClean (rstrip p s)
  unfolding rstrip
  rstrip-StartsClean [] h = tt
  rstrip-StartsClean (c ∷ cs) h = elim (Bool-cases (is_empty (rstrip p cs))) [
    | inl nothing ↦ rw (nothing, h, StartsClean) h
    | inr more ↦ rw (more, StartsClean) h
  ]

  EndsClean-cons :
      (c : ℕ) (rest : Str)
      → EndsClean rest
      → EndsClean (if is_empty rest && p c then [] else c ∷ rest)
  EndsClean-cons c [] h = elim (Bool-cases (p c)) [
    | inl drops ↦ rw (drops, EndsClean) tt
    | inr stays ↦ rw (stays, EndsClean) stays
  ]
  EndsClean-cons c (d ∷ ds) h = h

  rstrip-EndsClean : (s : Str) → EndsClean (rstrip p s)
  unfolding rstrip
  rstrip-EndsClean [] = tt
  rstrip-EndsClean (c ∷ cs) = EndsClean-cons c (rstrip p cs) (rstrip-EndsClean cs)

  drop_while-of_StartsClean : (s : Str) → StartsClean s → drop_while p s ≡ s
  unfolding drop_while
  drop_while-of_StartsClean [] h = refl
  drop_while-of_StartsClean (c ∷ cs) h = rw (h, drop_while)

  rstrip-rstrip : (s : Str) → rstrip p (rstrip p s) ≡ rstrip p s
  unfolding rstrip
  rstrip-rstrip [] = refl
  rstrip-rstrip (c ∷ cs) = ground (arith, rstrip-rstrip cs)

  -- Neither end of a stripped text passes the test.
  pub strip_of-clean : (s : Str) → StartsClean (strip_of p s) × EndsClean (strip_of p s)
  unfolding strip_of
  strip_of-clean s =
      (rstrip-StartsClean _ (drop_while-StartsClean s), rstrip-EndsClean (drop_while p s))

  pub strip_of-strip_of : (s : Str) → strip_of p (strip_of p s) ≡ strip_of p s
  unfolding strip_of
  strip_of-strip_of s =
      ap (rstrip p) (drop_while-of_StartsClean _ (rstrip-StartsClean _ (drop_while-StartsClean s)))
      ∙ rstrip-rstrip (drop_while p s)

  -- A text is what was taken off at both ends around what is left, and what was taken off passes the
  -- test.
  pub record IsStripped (s t : Str) : Type 0 where
    pub before : Str
    pub after : Str
    pub stands : s ≡ before ++ (t ++ after)
    pub before_pass : All (λ c. p c ≡ true) before
    pub after_pass : All (λ c. p c ≡ true) after
    pub starts_clean : StartsClean t
    pub ends_clean : EndsClean t

  dropped :
      (s : Str) → (before : Str) × ((s ≡ before ++ drop_while p s) × All (λ c. p c ≡ true) before)
  unfolding drop_while
  dropped [] = ([], (refl, tt))
  dropped (c ∷ cs) = elim (Bool-cases (p c)) [
    | inl drops ↦
        let (before, (e, pass)) = dropped cs in
        (c ∷ before, (rw (drops, drop_while) (ap (λ l. c ∷ l) e), (drops, pass)))
    | inr stays ↦ ([], (rw (stays, drop_while) refl, tt))
  ]

  stripped_end :
      (s : Str) → (after : Str) × ((s ≡ rstrip p s ++ after) × All (λ c. p c ≡ true) after)
  unfolding rstrip
  stripped_end [] = ([], (refl, tt))
  stripped_end (c ∷ cs) =
      let (after, (e, pass)) = stripped_end cs in
      elim (Bool-cases (is_empty (rstrip p cs) && p c)) [
        | inr stays ↦ (after, (rw (stays, rstrip) (ap (λ l. c ∷ l) e), pass))
        | inl drops ↦
            let all_ : cs ≡ after =
              e ∙ ap (λ l. l ++ after) (nil_of (rstrip p cs) (ground arith)) in
            (c ∷ after, (rw (drops, rstrip) (ap (λ l. c ∷ l) all_), (ground arith, pass)))
      ]
    where
      nil_of : (l : Str) → is_empty l ≡ true → l ≡ []
      nil_of [] h = refl
      nil_of (d ∷ ds) h = absurd (cc h)

  pub strip_of-IsStripped : (s : Str) → IsStripped s (strip_of p s)
  unfolding strip_of
  strip_of-IsStripped s =
      let (before, (e, pass)) = dropped s in
      let (after, (f, pass')) = stripped_end (drop_while p s) in
      let (starts, ends) = strip_of-clean s in
      record {
        before = before;
        after = after;
        stands = e ∙ ap (λ l. before ++ l) f;
        before_pass = pass;
        after_pass = pass';
        starts_clean = starts;
        ends_clean = ends;
      }

pub strip-strip : (s : Str) → strip (strip s) ≡ strip s
unfolding strip
strip-strip s = strip_of-strip_of _ s
