-- ===== src/Graph/Reads/Sorting.antt =====
-- What the sorted and selected reads hold.
use local_graph_rag.Prelude.{
  Bool, true, ◌≡◌, refl, List, [], ◌∷◌, In, inl, inr, ◌⊎◌, Bool-cases, leb, nat_eq, list_eq, ◌==◌,
}
use mathlib.Core.Path.{subst, sym}
use local_graph_rag.Prelude.Text.{Str}
use local_graph_rag.Prelude.Members.{In-keep, In-map}
use local_graph_rag.Graph.Tables.{ChunkRow, Store}
use local_graph_rag.Graph.Reads.{insert_by, sort_by, get_chunks_for_file}

module _ {A : Type 0} (le : A → A → Bool) where
  In-insert_self : (x : A) (ys : List A) → In x (insert_by le x ys)
  unfolding insert_by
  In-insert_self x [] = inl refl
  In-insert_self x (y ∷ ys) = elim (Bool-cases (le x y)) [
    | inl first ↦ rw (first, In) (inl refl)
    | inr later ↦ rw (later, In) (inr (In-insert_self x ys))
  ]

  In-insert : (x z : A) (ys : List A) → In z ys → In z (insert_by le x ys)
  unfolding insert_by
  In-insert x z [] m = elim m [ ]
  In-insert x z (y ∷ ys) m = elim (Bool-cases (le x y)) [
    | inl first ↦ rw (first, In) (inr m)
    | inr later ↦ rw (later, In) (elim m [ inl e ↦ inl e | inr k ↦ inr (In-insert x z ys k) ])
  ]

  pub In-sort_by : (x : A) (xs : List A) → In x xs → In x (sort_by le xs)
  unfolding sort_by
  In-sort_by x [] m = m
  In-sort_by x (y ∷ ys) (inl e) =
      subst (λ z. In z (insert_by le y (sort_by le ys))) (sym e) (In-insert_self y (sort_by le ys))
  In-sort_by x (y ∷ ys) (inr m) = In-insert y x (sort_by le ys) (In-sort_by x ys m)

  In-of_insert : (x z : A) (ys : List A) → In z (insert_by le x ys) → (z ≡ x) ⊎ In z ys
  unfolding insert_by
  In-of_insert x z [] m = m
  In-of_insert x z (y ∷ ys) m = elim (Bool-cases (le x y)) [
    | inl first ↦ rw (first, insert_by) at m
    | inr later ↦ elim (rw (later, insert_by) at m) as (λ v. (z ≡ x) ⊎ In z (y ∷ ys)) [
      | inl e ↦ inr (inl e)
      | inr k ↦ elim (In-of_insert x z ys k) [ inl e ↦ inl e | inr n ↦ inr (inr n) ]
    ]
  ]

  pub In-of_sort_by : (x : A) (xs : List A) → In x (sort_by le xs) → In x xs
  unfolding sort_by
  In-of_sort_by x [] m = m
  In-of_sort_by x (y ∷ ys) m = elim (In-of_insert y x (sort_by le ys) m) [
    | inl e ↦ inl e
    | inr k ↦ inr (In-of_sort_by x ys k)
  ]

-- Each chunk row of a file is among its chunk ids.
pub In-get_chunks :
    (filepath : Str) (s : Store) (c : ChunkRow)
    → In c s.chunks
    → (c.filepath == filepath) ≡ true
    → In c.chunk_id (get_chunks_for_file filepath s)
unfolding get_chunks_for_file
In-get_chunks filepath s c m own =
    In-map (λ (c : ChunkRow). c.chunk_id) _ c
      (In-sort_by (λ (c d : ChunkRow). leb c.chunk_index d.chunk_index) c _
        (In-keep (λ (c : ChunkRow). c.filepath == filepath) s.chunks c m own))
