-- ===== src/Rag/Embed/Returns.antt =====
-- When `embed_batch` returns.
use local_graph_rag.Prelude.{
  ℕ, zero, suc, ◌≤◌, ◌≡◌, refl, true, false, Option, some, List, [], ◌∷◌, ◌++◌, length, take, drop,
  is_empty, all, All, ltb, nat_eqb, nat_eqb_iff, arith, Bool-cases, inl, inr,
}
use local_graph_rag.Prelude.Text.{Str, strip}
use local_graph_rag.Rag.Embed.{
  Sizes, embed_batch_size, prepare_text, prepare_all, check_vectors, embed_slices, embed_batch,
}
use local_graph_rag.Rag.Embed.Vectors.{AllSized, shorter}

module _ (sizes : Sizes) where
  prepare_text-returns :
      (text : Str)
      → is_empty (strip text) ≡ false
      → (prepared : Str) × (prepare_text sizes text ≡ some prepared)
  unfolding prepare_text
  prepare_text-returns text h =
      elim (Bool-cases (ltb sizes.max_embed_chars (length (strip text)))) [
        | inl e ↦ (take sizes.max_embed_chars (strip text), rw (h, e) refl)
        | inr e ↦ (strip text, rw (h, e) refl)
      ]

  prepare_all-returns :
      (texts : List Str)
      → All (λ t. is_empty (strip t) ≡ false) texts
      → (prepared : List Str) × (prepare_all sizes texts ≡ some prepared)
  unfolding prepare_all
  prepare_all-returns [] a = ([], refl)
  prepare_all-returns (text ∷ texts) a =
      let (one, e) = prepare_text-returns text a.0 in
      let (rest, e') = prepare_all-returns texts a.1 in (one ∷ rest, rw (e, e') refl)

module _ {V : Type 0} (sizes : Sizes) where
  -- The service answers each batch with one vector of VECTOR_SIZE numbers for each text.
  abbrev pub Answers : (List Str → Option (List (List V))) → Type 0
  Answers post =
      (batch : List Str)
      → (vectors : List (List V)) × ((post batch ≡ some vectors)
          × ((length vectors ≡ length batch) × AllSized sizes vectors))

  all-of_AllSized :
      (vectors : List (List V))
      → AllSized sizes vectors
      → all (λ v. nat_eqb (length v) sizes.vector_size) vectors ≡ true
  all-of_AllSized [] a = refl
  all-of_AllSized (v ∷ vs) a =
      rw ((nat_eqb_iff (length v) sizes.vector_size).1 a.0) (all-of_AllSized vs a.1)

  check_passes :
      (batch : List Str) (vectors : List (List V))
      → length vectors ≡ length batch
      → AllSized sizes vectors
      → check_vectors sizes batch vectors ≡ some vectors
  unfolding check_vectors
  check_passes batch vectors l a =
      rw ((nat_eqb_iff (length vectors) (length batch)).1 l, all-of_AllSized vectors a) refl

  slices_return :
      (post : List Str → Option (List (List V))) (fuel : ℕ) (prepared : List Str)
      → Answers post
      → length prepared ≤ fuel
      → (vectors : List (List V)) × (embed_slices sizes post fuel prepared ≡ some vectors)
  unfolding embed_slices
  slices_return post zero prepared answers le = ([], refl)
  slices_return post (suc fuel) [] answers le = ([], refl)
  slices_return post (suc fuel) (text ∷ prepared) answers le =
      let slice = take embed_batch_size (text ∷ prepared) in
      let later = drop embed_batch_size (text ∷ prepared) in
      let (vectors, (e, (l, a))) = answers slice in
      let (rest, e') = slices_return post fuel later answers (shorter fuel text prepared le) in
      (vectors ++ rest, rw (e, check_passes slice vectors l a, e') refl)

  -- If no text is blank and the service answers each batch with one vector of VECTOR_SIZE numbers for
  -- each text, `embed_batch` returns.
  pub embed_batch-returns :
      (post : List Str → Option (List (List V))) (texts : List Str)
      → All (λ t. is_empty (strip t) ≡ false) texts
      → Answers post
      → (vectors : List (List V)) × (embed_batch sizes post texts ≡ some vectors)
  unfolding embed_batch
  embed_batch-returns post texts a answers =
      let (prepared, e) = prepare_all-returns sizes texts a in
      let (vectors, e') = slices_return post (length prepared) prepared answers (omega arith) in
      (vectors, rw e e')
