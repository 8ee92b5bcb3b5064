-- ===== src/Rag/Prompt/Supporting.antt =====
-- The chunk texts that a prompt quotes.
use local_graph_rag.Prelude.{
  ℕ, suc, ◌+◌, ◌≤◌, ◌≡◌, refl, ap, Bool, true, false, ◌&&◌, List, [], ◌∷◌, ◌++◌, length, flatten,
  ltb, Bool-cases, inl, inr, arith, ◌⊎◌, length-append,
}
use local_graph_rag.Prelude.Text.{Str}
use local_graph_rag.Rag.Prompt.{parts_from}

-- After the first part, the parts fit.
later-fits :
    (max_chars total : ℕ) (texts : List Str)
    → total ≤ max_chars
    → length (flatten (parts_from max_chars true total texts)) + total ≤ max_chars
unfolding parts_from flatten
later-fits max_chars total [] le = omega arith
later-fits max_chars total (text ∷ texts) le =
    elim (Bool-cases (ltb max_chars (total + length text))) [
      | inl e ↦ rw e (omega arith)
      | inr e ↦ rw e (
          let rest = later-fits max_chars (total + length text) texts (ground arith) in
          rw (length-append text (flatten (parts_from max_chars true (total + length text) texts)))
            (omega arith))
    ]

-- After a first part that is too long there is no other.
later-none :
    (max_chars total : ℕ) (texts : List Str)
    → suc max_chars ≤ total
    → parts_from max_chars true total texts ≡ []
unfolding parts_from
later-none max_chars total [] le = refl
later-none max_chars total (text ∷ texts) le = rw (over (length text)) refl
  where
    over : (n : ℕ) → ltb max_chars (total + n) ≡ true
    over n = ground arith

parts-prefix :
    (max_chars : ℕ) (any_parts : Bool) (total : ℕ) (texts : List Str)
    → (rest : List Str) × (texts ≡ parts_from max_chars any_parts total texts ++ rest)
unfolding parts_from
parts-prefix max_chars any_parts total [] = ([], refl)
parts-prefix max_chars any_parts total (text ∷ texts) =
    elim (Bool-cases (any_parts && ltb max_chars (total + length text))) [
      | inl e ↦ (text ∷ texts, rw e refl)
      | inr e ↦
          let (rest, p) = parts-prefix max_chars true (total + length text) texts in
          (rest, rw e (ap (λ ts. text ∷ ts) p))
    ]

-- The parts are the first texts, at least one if there is any, and together they have at most
-- max_chars characters unless they are one text that is longer.
pub record IsBudgeted (max_chars : ℕ) (texts parts : List Str) : Type 0 where
  pub after : List Str
  pub is_prefix : texts ≡ parts ++ after
  pub is_some :
      (text : Str) (more : List Str)
      → texts ≡ text ∷ more
      → (others : List Str) × (parts ≡ text ∷ others)
  pub fits :
      (length (flatten parts) ≤ max_chars)
      ⊎ ((text : Str) × ((parts ≡ text ∷ []) × (suc max_chars ≤ length text)))

-- The supporting texts of a prompt are the first texts of the context, at least one if there is any,
-- and together they have at most max_chars characters unless they are one text that is longer.
pub parts-IsBudgeted :
    (max_chars : ℕ) (texts : List Str)
    → IsBudgeted max_chars texts (parts_from max_chars false 0 texts)
unfolding parts_from flatten
parts-IsBudgeted max_chars [] = record {
  after = [];
  is_prefix = refl;
  is_some = λ text more e. absurd (cc e);
  fits = inl (omega arith);
}
parts-IsBudgeted max_chars (text ∷ texts) = record {
  after = (parts-prefix max_chars false 0 (text ∷ texts)).0;
  is_prefix = (parts-prefix max_chars false 0 (text ∷ texts)).1;
  is_some = λ t more e. (
    parts_from max_chars true (0 + length text) texts,
    ap (λ x. x ∷ parts_from max_chars true (0 + length text) texts) (cc e),
  );
  fits = elim (Bool-cases (ltb max_chars (length text))) [
    | inl e ↦ inr (
      text,
      (
        ap (λ ps. text ∷ ps) (later-none max_chars (0 + length text) texts (ground arith)),
        ground arith,
      ),
    )
    | inr e ↦
        let rest = later-fits max_chars (0 + length text) texts (ground arith) in
        inl (
          rw (length-append text (flatten (parts_from max_chars true (0 + length text) texts)))
            (omega arith))
  ];
}
