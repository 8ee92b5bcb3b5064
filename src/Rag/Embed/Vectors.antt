-- ===== src/Rag/Embed/Vectors.antt =====
-- What `embed_batch` returns.
use mathlib.Core.Path.{subst}
use local_graph_rag.Prelude.{
  ℕ, zero, suc, ◌+◌, ◌≤◌, ◌≡◌, refl, sym, ap, ◌∙◌, true, ◌&&◌, Option, some, List, [], ◌∷◌, ◌++◌,
  length, length-append, take, drop, all, All, All-append, nat_eqb, nat_eqb_iff, ap₂, Bool-cases,
  inl, inr, arith,
}
use local_graph_rag.Prelude.Text.{Str}
use local_graph_rag.Graph.Frames.{>>=-eq-some}
use local_graph_rag.Rag.Embed.{
  Sizes, embed_batch_size, prepare_text, prepare_all, check_vectors, embed_slices, embed_batch,
}

length-take-drop :
    {A : Type 0} (n : ℕ) (xs : List A) → length (take n xs) + length (drop n xs) ≡ length xs
length-take-drop zero xs = omega arith
length-take-drop (suc n) [] = omega arith
length-take-drop (suc n) (x ∷ xs) = omega (arith, length-take-drop n xs)

prepare_all-length :
    (sizes : Sizes) (texts prepared : List Str)
    → prepare_all sizes texts ≡ some prepared
    → length prepared ≡ length texts
unfolding prepare_all
prepare_all-length sizes [] prepared h = ap length (sym (some_inv h))
  where
    some_inv : {a b : List Str} → some a ≡ some b → a ≡ b
    some_inv e = cc
prepare_all-length sizes (text ∷ texts) prepared h =
    let (one, _, h₁) = >>=-eq-some (prepare_text sizes text) _ h in
    let (rest, e, h₂) = >>=-eq-some (prepare_all sizes texts) _ h₁ in
    let own : one ∷ rest ≡ prepared = cc h₂ in
    sym (ap length own) ∙ ap suc (prepare_all-length sizes texts rest e)

length-drop-le : {A : Type 0} (n : ℕ) (xs : List A) → length (drop n xs) ≤ length xs
length-drop-le n xs = omega (arith, length-take-drop n xs)

pub shorter :
    (fuel : ℕ) (text : Str) (prepared : List Str)
    → length (text ∷ prepared) ≤ suc fuel
    → length (drop embed_batch_size (text ∷ prepared)) ≤ fuel
shorter fuel text prepared le = let m = length-drop-le 63 prepared in omega arith

module _ {V : Type 0} (sizes : Sizes) where
  all-sized :
      (vectors : List (List V))
      → all (λ v. nat_eqb (length v) sizes.vector_size) vectors ≡ true
      → All (λ v. length v ≡ sizes.vector_size) vectors
  all-sized [] h = tt
  all-sized (v ∷ vs) h = (size h, all-sized vs (rest h))
    where
      size :
          (nat_eqb (length v) sizes.vector_size
              && all (λ v. nat_eqb (length v) sizes.vector_size) vs)
            ≡ true
          → length v ≡ sizes.vector_size
      size h = ground arith

      rest :
          (nat_eqb (length v) sizes.vector_size
              && all (λ v. nat_eqb (length v) sizes.vector_size) vs)
            ≡ true
          → all (λ v. nat_eqb (length v) sizes.vector_size) vs ≡ true
      rest h = ground arith

  abbrev pub AllSized : List (List V) → Type 0
  AllSized vectors = All (λ v. length v ≡ sizes.vector_size) vectors

  check_sound :
      (batch : List Str) (vectors checked : List (List V))
      → check_vectors sizes batch vectors ≡ some checked
      → (length checked ≡ length batch) × AllSized checked
  unfolding check_vectors
  check_sound batch vectors checked h =
      elim (Bool-cases (nat_eqb (length vectors) (length batch))) [
        | inr e ↦ absurd (cc (rw (e, check_vectors) at h))
        | inl e ↦ elim (Bool-cases (all (λ v. nat_eqb (length v) sizes.vector_size) vectors)) [
          | inr e' ↦ absurd (cc (rw (e, e', check_vectors) at h))
          | inl e' ↦
              let own : vectors ≡ checked = some_inv (rw (e, e', check_vectors) at h) in
              (
                ap length (sym own) ∙ (nat_eqb_iff (length vectors) (length batch)).0 e,
                subst AllSized own (all-sized vectors e'),
              )
        ]
      ]
    where
      some_inv : {a b : List (List V)} → some a ≡ some b → a ≡ b
      some_inv e = cc

  slices_sound :
      (post : List Str → Option (List (List V))) (fuel : ℕ) (prepared : List Str)
      (vectors : List (List V))
      → length prepared ≤ fuel
      → embed_slices sizes post fuel prepared ≡ some vectors
      → (length vectors ≡ length prepared) × AllSized vectors
  unfolding embed_slices
  slices_sound post zero [] vectors le h = nothing vectors h
    where
      nothing :
          (vectors : List (List V))
          → some [] ≡ some vectors
          → (length vectors ≡ 0) × AllSized vectors
      nothing vectors h =
          let e : [] ≡ vectors = cc h in subst (λ vs. (length vs ≡ 0) × AllSized vs) e (refl, tt)
  slices_sound post zero (text ∷ prepared) vectors le h = absurd (ground arith)
  slices_sound post (suc fuel) [] vectors le h = nothing vectors h
    where
      nothing :
          (vectors : List (List V))
          → some [] ≡ some vectors
          → (length vectors ≡ 0) × AllSized vectors
      nothing vectors h =
          let e : [] ≡ vectors = cc h in subst (λ vs. (length vs ≡ 0) × AllSized vs) e (refl, tt)
  slices_sound post (suc fuel) (text ∷ prepared) vectors le h =
      let slice = take embed_batch_size (text ∷ prepared) in
      let later = drop embed_batch_size (text ∷ prepared) in
      let (replied, _, h₁) = >>=-eq-some (post slice) _ h in
      let (checked, e, h₂) = >>=-eq-some (check_vectors sizes slice replied) _ h₁ in
      let (rest, e', h₃) = >>=-eq-some (embed_slices sizes post fuel later) _ h₂ in
      let own : checked ++ rest ≡ vectors = cc h₃ in
      let (l, a) = check_sound slice replied checked e in
      let (l', a') = slices_sound post fuel later rest (shorter fuel text prepared le) e' in
      (
        ap length (sym own)
            ∙ length-append checked rest
            ∙ ap₂ (λ m n. m + n) l l'
            ∙ length-take-drop embed_batch_size (text ∷ prepared),
        subst AllSized own (All-append (λ v. length v ≡ sizes.vector_size) checked rest a a'),
      )

  -- What `embed_batch` returns is one vector of VECTOR_SIZE numbers for each text.
  pub embed_batch-sizes :
      (post : List Str → Option (List (List V))) (texts : List Str) (vectors : List (List V))
      → embed_batch sizes post texts ≡ some vectors
      → (length vectors ≡ length texts) × AllSized vectors
  unfolding embed_batch
  embed_batch-sizes post texts vectors h =
      let (prepared, e, h₁) = >>=-eq-some (prepare_all sizes texts) _ h in
      let (l, a) = slices_sound post (length prepared) prepared vectors (omega arith) h₁ in
      (l ∙ prepare_all-length sizes texts prepared e, a)
