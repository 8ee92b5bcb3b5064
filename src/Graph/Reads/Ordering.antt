-- ===== src/Graph/Reads/Ordering.antt =====
-- A sorted read does not depend on the order of its rows.
use mathlib.Core.Logic.{∥∥₁_elim}
use mathlib.Core.List.{Perm, Permᴰ}
use local_graph_rag.Prelude.{Bool, true, false, not, ◌≡◌, refl, ◌∙◌, List, [], ◌∷◌, arith}
use local_graph_rag.Prelude.Text.{Str}
use local_graph_rag.Graph.Derived.{str_ltb}
use local_graph_rag.Graph.Reads.{insert_by, sort_by}

str_ltb-asym : (a b : Str) → str_ltb a b ≡ true → str_ltb b a ≡ false
unfolding str_ltb
str_ltb-asym [] [] h = refl
str_ltb-asym (x ∷ a) [] h = absurd (cc h)
str_ltb-asym [] (y ∷ b) h = refl
str_ltb-asym (x ∷ a) (y ∷ b) h = ground (arith, str_ltb-asym a b)

str_ltb-trichotomy : (a b : Str) → str_ltb a b ≡ false → str_ltb b a ≡ false → a ≡ b
unfolding str_ltb
str_ltb-trichotomy [] [] h k = refl
str_ltb-trichotomy (x ∷ a) [] h k = absurd (cc k)
str_ltb-trichotomy [] (y ∷ b) h k = absurd (cc h)
str_ltb-trichotomy (x ∷ a) (y ∷ b) h k = ground (arith, str_ltb-trichotomy a b)

-- What is not below `b`, which is not below `c`, is not below `c`.
str_ltb_trans : (a b c : Str) → str_ltb b a ≡ false → str_ltb c b ≡ false → str_ltb c a ≡ false
unfolding str_ltb
str_ltb_trans a [] [] h k = h
str_ltb_trans a (y ∷ b) [] h k = absurd (cc k)
str_ltb_trans [] [] (z ∷ c) h k = refl
str_ltb_trans (x ∷ a) [] (z ∷ c) h k = absurd (cc h)
str_ltb_trans [] (y ∷ b) (z ∷ c) h k = refl
str_ltb_trans (x ∷ a) (y ∷ b) (z ∷ c) h k = ground (arith, str_ltb_trans a b c)

-- The order of Python's `sorted` on texts.
abbrev pub is_ordered : Str → Str → Bool
is_ordered a b = not (str_ltb b a)

insert_twice :
    (x y : Str) (zs : List Str)
    → insert_by is_ordered x (insert_by is_ordered y zs)
      ≡ insert_by is_ordered y (insert_by is_ordered x zs)
unfolding insert_by
insert_twice x y [] = ground (arith, str_ltb-asym x y, str_ltb-trichotomy x y)
insert_twice x y (z ∷ zs) = ground (
  arith,
  str_ltb-asym x y,
  str_ltb-trichotomy x y,
  str_ltb_trans x y z,
  str_ltb_trans y x z,
  insert_twice x y zs,
)

sort-of_Permᴰ : (xs ys : List Str) → Permᴰ xs ys → sort_by is_ordered xs ≡ sort_by is_ordered ys
unfolding sort_by
sort-of_Permᴰ xs ys Permᴰ.nil = refl
sort-of_Permᴰ (x ∷ xs) (y ∷ ys) (Permᴰ.cons e p) = rw (e, sort-of_Permᴰ xs ys p) refl
sort-of_Permᴰ (x ∷ y ∷ xs) (z ∷ w ∷ ys) (Permᴰ.swap e f) =
    rw (e, f) (insert_twice w z (sort_by is_ordered xs))
sort-of_Permᴰ xs ys (Permᴰ.trans {l₂ = zs} p q) = sort-of_Permᴰ xs zs p ∙ sort-of_Permᴰ zs ys q

-- Texts in any order are sorted to one list.
pub sort-of_perm : {xs ys : List Str} → Perm xs ys → sort_by is_ordered xs ≡ sort_by is_ordered ys
sort-of_perm {xs} {ys} p = ∥∥₁_elim p (hlevel) (sort-of_Permᴰ xs ys)
