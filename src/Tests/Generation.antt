-- ===== src/Tests/Generation.antt =====
-- The client of Ollama on small inputs.
use local_graph_rag.Prelude.{
  ℕ, zero, suc, ◌<◌, ◌≡◌, refl, Bool, true, false, Option, none, some, List, [], ◌∷◌, ◌++◌, map,
  take, is_empty, nat_eqb, arith,
}
use local_graph_rag.Prelude.Text.{Str, codes}
use local_graph_rag.Outside.{Json}
use local_graph_rag.Rag.Generation.{
  Wait, got, expired, acquired, generation_slot, slot_from, ended, stream_generate,
}
use local_graph_rag.Rag.Generation.Acquire.{Decided, generation_slot-Decided}
use local_graph_rag.Rag.Generation.Lines.{
  reply, shown, Prints, stream_generate-printed, stream_generate-cut,
}

-- The first wait runs out, the second gets a slot.
abbrev waits : ℕ → Wait
waits zero = expired 1
waits (suc n) = got

abbrev not_set : ℕ → Bool
not_set i = false

waited : generation_slot 9 2 not_set waits ≡ acquired
unfolding generation_slot slot_from
waited = refl

generation_slot-Decided_example : Decided 9 2 not_set waits (generation_slot 9 2 not_set waits)
generation_slot-Decided_example = generation_slot-Decided 9 2 not_set waits (omega arith)

-- A line of one letter before the text: + if more will come, . if not.
abbrev print : Str → Bool → Str
print text true = 46 ∷ text
print text false = 43 ∷ text

abbrev loads : Str → Option Json
loads [] = none
loads (c ∷ cs) = some (reply cs (nat_eqb c 46))

prints : Prints loads print
prints = record {
  not_empty = λ t d. elim d as (λ d. is_empty (print t d) ≡ false) [ true ↦ refl | false ↦ refl ];
  reads_back =
      λ t d. elim d as (λ d. loads (print t d) ≡ some (reply t d)) [ true ↦ refl | false ↦ refl ];
}

abbrev pieces : List Str
pieces = codes "a" ∷ [] ∷ codes "bc" ∷ []

stream_generate-printed_example :
    stream_generate loads not_set acquired true ended
      (map (λ t. print t false) pieces ++ print (codes "d") true ∷ codes "+e" ∷ [])
    ≡ record { pieces = shown (pieces ++ codes "d" ∷ []); finish = ended }
stream_generate-printed_example =
    stream_generate-printed loads print prints not_set ended pieces (codes "d") (codes "+e" ∷ [])
      (λ j. refl)

abbrev lines : List Str
lines = codes "+a" ∷ codes "+b" ∷ codes ".c" ∷ []

-- Cancelled from the second line on.
abbrev set_later : ℕ → Bool
set_later zero = false
set_later (suc i) = true

before_first : (j : ℕ) → j < 1 → set_later j ≡ false
before_first zero lt = refl
before_first (suc j) lt = absurd (omega arith)

stream_generate-cut_example :
    (stream_generate loads set_later acquired true ended lines).pieces
    ≡ (stream_generate loads (λ j. false) acquired true ended (take 1 lines)).pieces
stream_generate-cut_example = stream_generate-cut loads set_later ended 1 lines before_first refl
