-- ===== src/Rag/Local/Texts.antt =====
-- The texts that a local retrieval gives to the prompt.
use mathlib.Core.Path.{subst}
use local_graph_rag.Prelude.{
  All, ℕ, ◌≡◌, refl, sym, ap, ◌∙◌, inl, inr, Bool, false, Bool-cases, List, [], ◌∷◌, ◌++◌, map,
  flatten, In, In-append_left, In-append_right, contains, nat_eq, list_eq, if◌then◌else◌,
}
use local_graph_rag.Prelude.Text.{Str}
use local_graph_rag.Prelude.Members.{All-of_In, In-of_contains}
use local_graph_rag.Graph.Tables.{Store}
use local_graph_rag.Rag.Local.{
  Hit, Piece, texts_of, pieces_of, deduped_identifiers, matches_of, add_texts, local_retrieve,
}

-- Each text is new after those before it.
pub data AllNew : List Str → List Str → Type 0 where
  no_text : (before : List Str) → AllNew before []
  new_text :
      (before : List Str) (t : Str) (ts : List Str)
      → contains t before ≡ false
      → AllNew (before ++ t ∷ []) ts
      → AllNew before (t ∷ ts)

append-assoc_one : (xs : List Str) (y : Str) (ys : List Str) → (xs ++ y ∷ []) ++ ys ≡ xs ++ y ∷ ys
append-assoc_one [] y ys = refl
append-assoc_one (x ∷ xs) y ys = ap (λ l. x ∷ l) (append-assoc_one xs y ys)

append_none : (xs : List Str) → xs ≡ xs ++ []
append_none [] = refl
append_none (x ∷ xs) = ap (λ l. x ∷ l) (append_none xs)

added :
    (pieces : List Piece) (texts : List Str)
    → (extra : List Str) × ((add_texts pieces texts ≡ texts ++ extra) × AllNew texts extra)
unfolding add_texts
added [] texts = ([], (append_none texts, no_text texts))
added ((id, t) ∷ pieces) texts = elim (Bool-cases (contains t texts)) [
  | inl e ↦ rw e (added pieces texts)
  | inr e ↦
      let (extra, (same, new)) = added pieces (texts ++ t ∷ []) in
      (t ∷ extra, (rw e (same ∙ append-assoc_one texts t extra), new_text texts t extra e new))
]

kept_texts :
    (pieces : List Piece) (texts : List Str) (t : Str) → In t texts → In t (add_texts pieces texts)
unfolding add_texts
kept_texts [] texts t m = m
kept_texts ((id, u) ∷ pieces) texts t m = elim (Bool-cases (contains u texts)) [
  | inl e ↦ rw e (kept_texts pieces texts t m)
  | inr e ↦ rw e (kept_texts pieces (texts ++ u ∷ []) t (In-append_left t texts (u ∷ []) m))
]

all_added :
    (pieces : List Piece) (texts : List Str) (p : Piece)
    → In p pieces
    → In p.1 (add_texts pieces texts)
unfolding add_texts
all_added [] texts p m = absurd m
all_added ((id, u) ∷ pieces) texts p (inr m) =
    all_added pieces (if contains u texts then texts else texts ++ u ∷ []) p m
all_added ((id, u) ∷ pieces) texts p (inl own) =
    let same : p.1 ≡ u = ap (λ (q : Piece). q.1) own in
    elim (Bool-cases (contains u texts)) [
      | inl e ↦ rw e (
          kept_texts pieces texts p.1
            (subst (λ x. In x texts) (sym same) (In-of_contains texts u e)))
      | inr e ↦
          rw e (
            kept_texts pieces (texts ++ u ∷ []) p.1 (In-append_right p.1 texts (u ∷ []) (inl same)))
    ]

In-flatten :
    (f : Str → List Piece) (names : List Str) (n : Str) (p : Piece)
    → In n names
    → In p (f n)
    → In p (flatten (map f names))
unfolding flatten
In-flatten f [] n p m h = absurd m
In-flatten f (k ∷ names) n p (inl own) h = In-append_left p (f k) _ (subst (λ x. In p (f x)) own h)
In-flatten f (k ∷ names) n p (inr m) h = In-append_right p (f k) _ (In-flatten f names n p m h)

-- The texts of a local retrieval are those of the vector search, in their order, and after them texts
-- that each are new there. The texts that the search by name gives for the names looked up are all
-- among them.
pub local_retrieve-AllNew :
    (is_word : ℕ → Bool) (hits : List Hit) (scroll : List Str → List Hit) (hops : ℕ)
    (question : Str) (s : Store)
    → ((extra : List Str) × (((local_retrieve is_word hits scroll hops question s).chunk_texts
            ≡ texts_of hits ++ extra)
          × AllNew (texts_of hits) extra))
      × All
          (λ name.
            All
              (λ (p : Piece).
                In p.1 (local_retrieve is_word hits scroll hops question s).chunk_texts)
              (pieces_of name (scroll (deduped_identifiers is_word question))))
          (deduped_identifiers is_word question)
unfolding local_retrieve matches_of
local_retrieve-AllNew is_word hits scroll hops question s = (
  added (matches_of scroll (deduped_identifiers is_word question)) (texts_of hits),
  All-of_In _ (deduped_identifiers is_word question) (λ name known.
      All-of_In _ (pieces_of name (scroll (deduped_identifiers is_word question))) (λ p m.
        all_added (matches_of scroll (deduped_identifiers is_word question)) (texts_of hits) p
          (matched (deduped_identifiers is_word question) name p known m))),
)
  where
    matched :
        (names : List Str) (n : Str) (p : Piece)
        → In n names
        → In p (pieces_of n (scroll names))
        → In p (matches_of scroll names)
    matched [] n p i m = absurd i
    matched (k ∷ names) n p i m =
        In-flatten (λ n. pieces_of n (scroll (k ∷ names))) (k ∷ names) n p i m
