-- ===== src/Prelude/Members.antt =====
-- Membership in what the Boolean list operations return.
use mathlib.Core.Path.{◌≡◌, refl, sym, ap, subst}
use mathlib.Core.Bool.{Bool, true, false, ◌||◌}
use mathlib.Core.Logic.{◌⊎◌, inl, inr}
use mathlib.Core.List.{List, [], ◌∷◌, ◌++◌, map}
use native.Mathlib.Omega.{arith}
use local_graph_rag.Prelude.Tests.{Tested, ◌==◌, eq_iff, Bool-cases}
use local_graph_rag.Prelude.Lists.{keep, any, all, contains, In, All}

module _ {A : Type 0} where
  pub any-of_In : (p : A → Bool) (xs : List A) (x : A) → In x xs → p x ≡ true → any p xs ≡ true
  any-of_In p [] x m h = elim m [ ]
  any-of_In p (y ∷ ys) x (inl e) h =
      let k : p y ≡ true = subst (λ z. p z ≡ true) e h in ground arith
  any-of_In p (y ∷ ys) x (inr m) h = ground (arith, any-of_In p ys x m h)

  pub In-of_any : (p : A → Bool) (xs : List A) → any p xs ≡ true → (x : A) × In x xs × (p x ≡ true)
  In-of_any p [] h = cc
  In-of_any p (y ∷ ys) h = elim (Bool-cases (p y)) [
    | inl here ↦ (y, inl refl, here)
    | inr there ↦ let (x, m, k) = In-of_any p ys (ground arith) in (x, inr m, k)
  ]

  pub all-of_In : (p : A → Bool) (xs : List A) → ((x : A) → In x xs → p x ≡ true) → all p xs ≡ true
  all-of_In p [] h = refl
  all-of_In p (y ∷ ys) h = ground (arith, h y (inl refl), all-of_In p ys (λ x m. h x (inr m)))

  pub In-of_all : (p : A → Bool) (xs : List A) (x : A) → all p xs ≡ true → In x xs → p x ≡ true
  In-of_all p [] x h m = elim m [ ]
  In-of_all p (y ∷ ys) x h (inl e) = subst (λ z. p z ≡ true) (sym e) (ground arith)
  In-of_all p (y ∷ ys) x h (inr m) = In-of_all p ys x (ground arith) m

  pub In-keep : (p : A → Bool) (xs : List A) (x : A) → In x xs → p x ≡ true → In x (keep p xs)
  In-keep p [] x m h = elim m [ ]
  In-keep p (y ∷ ys) x m h = elim (Bool-cases (p y)) [
    | inl here ↦ rw (here, In) (elim m [ inl e ↦ inl e | inr k ↦ inr (In-keep p ys x k h) ])
    | inr gone ↦
        rw (gone, In) (elim m [ inl e ↦ absurd (cc (ap p e)) | inr k ↦ In-keep p ys x k h ])
  ]

  pub In-of_keep : (p : A → Bool) (xs : List A) (x : A) → In x (keep p xs) → In x xs × (p x ≡ true)
  In-of_keep p [] x m = elim m [ ]
  In-of_keep p (y ∷ ys) x m = elim (Bool-cases (p y)) [
    | inl here ↦ go here (In-of_keep p ys x) (rw (here, In) at m)
    | inr gone ↦ let (k, h) = In-of_keep p ys x (rw (gone, In) at m) in (inr k, h)
  ]
    where
      go :
          p y ≡ true
          → (In x (keep p ys) → In x ys × (p x ≡ true))
          → (x ≡ y) ⊎ In x (keep p ys)
          → In x (y ∷ ys) × (p x ≡ true)
      go here later (inl e) = (inl e, subst (λ z. p z ≡ true) (sym e) here)
      go here later (inr k) = (inr (later k).0, (later k).1)

  pub In-append : (xs ys : List A) (x : A) → In x (xs ++ ys) → In x xs ⊎ In x ys
  In-append [] ys x m = inr m
  In-append (z ∷ xs) ys x (inl e) = inl (inl e)
  In-append (z ∷ xs) ys x (inr m) = elim (In-append xs ys x m) [
    | inl k ↦ inl (inr k)
    | inr k ↦ inr k
  ]

module _ {A B : Type 0} where
  pub In-map : (f : A → B) (xs : List A) (x : A) → In x xs → In (f x) (map f xs)
  In-map f [] x m = elim m [ ]
  In-map f (y ∷ ys) x (inl e) = inl (ap f e)
  In-map f (y ∷ ys) x (inr m) = inr (In-map f ys x m)

  pub In-of_map :
      (f : A → B) (xs : List A) (y : B) → In y (map f xs) → (x : A) × In x xs × (y ≡ f x)
  In-of_map f [] y m = elim m [ ]
  In-of_map f (x ∷ xs) y (inl e) = (x, inl refl, e)
  In-of_map f (x ∷ xs) y (inr m) = let (z, k, e) = In-of_map f xs y m in (z, inr k, e)

pub contains-of_In :
    {A : Type 0} ⦃e : Tested A⦄ (xs : List A) (x : A) → In x xs → contains x xs ≡ true
contains-of_In [] x m = elim m [ ]
contains-of_In ⦃e⦄ (y ∷ ys) x (inl p) = ground (arith, e.decides x y)
contains-of_In (y ∷ ys) x (inr m) = ground (arith, contains-of_In ys x m)

pub In-of_contains :
    {A : Type 0} ⦃e : Tested A⦄ (xs : List A) (x : A) → contains x xs ≡ true → In x xs
In-of_contains [] x h = cc
In-of_contains ⦃e⦄ (y ∷ ys) x h = elim (Bool-cases (x == y)) [
  | inl here ↦ inl ((e.decides x y).0 here)
  | inr there ↦ inr (In-of_contains ys x (ground arith))
]

pub ==-comm : {A : Type 0} ⦃e : Tested A⦄ (a b : A) → (a == b) ≡ (b == a)
==-comm a b =
    same (a == b) (b == a) (λ e. (eq_iff b a).1 (sym ((eq_iff a b).0 e)))
      (λ e. (eq_iff a b).1 (sym ((eq_iff b a).0 e)))
  where
    same : (x y : Bool) → (x ≡ true → y ≡ true) → (y ≡ true → x ≡ true) → x ≡ y
    same true y f g = sym (f refl)
    same false true f g = g refl
    same false false f g = refl

pub or_none : (a b : Bool) → (a || b) ≡ false → (a ≡ false) × (b ≡ false)
or_none a b e = ground arith

pub All-of_In : {A : Type 0} (P : A → Type 0) (xs : List A) → ((x : A) → In x xs → P x) → All P xs
All-of_In P [] h = tt
All-of_In P (x ∷ xs) h = (h x (inl refl), All-of_In P xs (λ y m. h y (inr m)))
