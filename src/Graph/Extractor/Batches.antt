-- ===== src/Graph/Extractor/Batches.antt =====
-- `_build_batches` loses no chunk, and keeps each batch within its token budget.
use mathlib.Core.List.{append_assoc}
use local_graph_rag.Prelude.{
  ℕ, ◌+◌, ◌≤◌, ◌≡◌, ◌⊎◌, refl, ap, true, false, List, [], ◌∷◌, ◌++◌, flatten, All, is_empty, arith,
  Bool-cases, inl, inr,
}
use local_graph_rag.Prelude.Text.{Str}
use local_graph_rag.Settings.{Settings}
use local_graph_rag.Graph.Extractor.{estimate_tokens, is_batch_full, batches_from}

pub tokens_of : List Str → ℕ
tokens_of [] = 0
tokens_of (c ∷ cs) = estimate_tokens c + tokens_of cs

tokens_of-snoc :
    (cs : List Str) (c : Str) → tokens_of (cs ++ c ∷ []) ≡ tokens_of cs + estimate_tokens c
unfolding tokens_of
tokens_of-snoc [] c = omega arith
tokens_of-snoc (d ∷ ds) c = omega (arith, tokens_of-snoc ds c)

module _ (cfg : Settings) where
  -- A batch holds one chunk, or its estimate is within EXTRACT_BATCH_TOKENS.
  abbrev pub WithinBudget : List Str → Type 0
  WithinBudget batch = ((c : Str) × (batch ≡ c ∷ [])) ⊎ (tokens_of batch ≤ cfg.extract_batch_tokens)

  flatten-batches_from :
      (chunks current : List Str) (tokens : ℕ)
      → flatten (batches_from cfg current tokens chunks) ≡ current ++ chunks
  unfolding batches_from flatten
  flatten-batches_from [] [] tokens = refl
  flatten-batches_from [] (c ∷ cs) tokens = refl
  flatten-batches_from (chunk ∷ chunks) current tokens =
      elim (Bool-cases (is_batch_full cfg current tokens chunk)) [
        | inl full ↦ rw full (ap (◌++◌ current) (flatten-batches_from chunks (chunk ∷ []) _))
        | inr room ↦ rw (room, flatten-batches_from chunks (current ++ chunk ∷ []) _, append_assoc)
      ]

  added-WithinBudget :
      (current : List Str) (tokens : ℕ) (chunk : Str)
      → tokens ≡ tokens_of current
      → is_batch_full cfg current tokens chunk ≡ false
      → WithinBudget (current ++ chunk ∷ [])
  unfolding is_batch_full
  added-WithinBudget [] tokens chunk e room = inl (chunk, refl)
  added-WithinBudget (c ∷ cs) tokens chunk e room =
      let fits : tokens + estimate_tokens chunk ≤ cfg.extract_batch_tokens = ground arith in
      inr (omega (arith, tokens_of-snoc (c ∷ cs) chunk))

  batches_from-WithinBudget :
      (chunks current : List Str) (tokens : ℕ)
      → tokens ≡ tokens_of current
      → (is_empty current ≡ false → WithinBudget current)
      → All WithinBudget (batches_from cfg current tokens chunks)
  unfolding batches_from
  batches_from-WithinBudget [] [] tokens e w = tt
  batches_from-WithinBudget [] (c ∷ cs) tokens e w = (w refl, tt)
  batches_from-WithinBudget (chunk ∷ chunks) current tokens e w =
      elim (Bool-cases (is_batch_full cfg current tokens chunk)) [
        | inl full ↦
            rw (full, All)
              (
                w (full_some current full),
                batches_from-WithinBudget chunks (chunk ∷ []) _ (unfold tokens_of in omega arith)
                    (λ _. inl (chunk, refl)),
              )
        | inr room ↦ rw room (
            batches_from-WithinBudget chunks (current ++ chunk ∷ []) _
              (omega (arith, tokens_of-snoc current chunk))
              (λ _. added-WithinBudget current tokens chunk e room))
      ]
    where
      full_some : (cs : List Str) → is_batch_full cfg cs tokens chunk ≡ true → is_empty cs ≡ false
      full_some cs h = unfold is_batch_full in ground arith

  -- The batches hold the chunks in order, and the estimate of a batch of more than one chunk is at
  -- most EXTRACT_BATCH_TOKENS.
  pub batches-WithinBudget :
      (chunks : List Str)
      → (flatten (batches_from cfg [] 0 chunks) ≡ chunks)
        × All WithinBudget (batches_from cfg [] 0 chunks)
  batches-WithinBudget chunks = (
    flatten-batches_from chunks [] 0,
    batches_from-WithinBudget chunks [] 0 (unfold tokens_of in refl) (λ h. absurd (cc h)),
  )
