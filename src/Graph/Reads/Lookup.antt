-- ===== src/Graph/Reads/Lookup.antt =====
-- The first row that passes a test, through filters, appends and updates.
use local_graph_rag.Prelude.{
  ◌≡◌, refl, sym, ap, ◌∙◌, Bool, true, false, ◌||◌, none, some, List, [], ◌∷◌, ◌++◌, keep, any, In,
  Bool-cases, inl, inr, arith,
}
use local_graph_rag.Graph.Reads.{find}

module _ {A : Type 0} (p : A → Bool) where
  pub find-In : (xs : List A) (x : A) → find p xs ≡ some x → In x xs × (p x ≡ true)
  unfolding find
  find-In [] x h = absurd (cc h)
  find-In (y ∷ ys) x h = elim (Bool-cases (p y)) [
    | inl e ↦
        let same : y ≡ x = some_inv (rw (e, find) at h) in (inl (sym same), ap p (sym same) ∙ e)
    | inr e ↦ let (i, k) = find-In ys x (rw (e, find) at h) in (inr i, k)
  ]
    where
      some_inv : {a b : A} → some a ≡ some b → a ≡ b
      some_inv e = cc

  -- A filter that keeps what passes the test.
  pub find-keep :
      (q : A → Bool) (xs : List A)
      → ((x : A) → p x ≡ true → q x ≡ true)
      → find p (keep q xs) ≡ find p xs
  unfolding find
  find-keep q [] h = refl
  find-keep q (x ∷ xs) h = elim (Bool-cases (p x)) [
    | inl e ↦ rw (h x e, e) refl
    | inr e ↦ elim (Bool-cases (q x)) [
      | inl e' ↦ rw (e', e) (find-keep q xs h)
      | inr e' ↦ rw (e', e) (find-keep q xs h)
    ]
  ]

  -- A filter that drops all that passes the test.
  pub find-dropped :
      (q : A → Bool) (xs : List A)
      → ((x : A) → p x ≡ true → q x ≡ false)
      → find p (keep q xs) ≡ none
  unfolding find
  find-dropped q [] h = refl
  find-dropped q (x ∷ xs) h = elim (Bool-cases (q x)) [
    | inr e ↦ rw e (find-dropped q xs h)
    | inl e ↦ elim (Bool-cases (p x)) [
      | inl e' ↦ absurd (cc (h x e', e))
      | inr e' ↦ rw (e, e') (find-dropped q xs h)
    ]
  ]

  pub find-append_skip : (xs ys : List A) → any p xs ≡ false → find p (xs ++ ys) ≡ find p ys
  unfolding find
  find-append_skip [] ys h = refl
  find-append_skip (x ∷ xs) ys h = elim (Bool-cases (p x)) [
    | inl e ↦ absurd (cc (rw (e, any) at h))
    | inr e ↦ rw e (find-append_skip xs ys (rw (e, any) at h))
  ]

  pub find-append_other : (xs : List A) (y : A) → p y ≡ false → find p (xs ++ y ∷ []) ≡ find p xs
  unfolding find
  find-append_other [] y h = rw h refl
  find-append_other (x ∷ xs) y h = elim (Bool-cases (p x)) [
    | inl e ↦ rw e refl
    | inr e ↦ rw e (find-append_other xs y h)
  ]

  pub any-weaken :
      (q : A → Bool) (xs : List A)
      → ((x : A) → p x ≡ true → q x ≡ true)
      → any q xs ≡ false
      → any p xs ≡ false
  any-weaken q [] h e = refl
  any-weaken q (x ∷ xs) h e = elim (Bool-cases (p x)) [
    | inl e' ↦ absurd (cc (rw (h x e', any) at e))
    | inr e' ↦ rw e' (any-weaken q xs h (right (q x) (any q xs) e))
  ]
    where
      right : (a b : Bool) → (a || b) ≡ false → b ≡ false
      right a b e = ground arith

  not_found : (xs : List A) → find p xs ≡ none → any p xs ≡ false
  unfolding find
  not_found [] h = refl
  not_found (x ∷ xs) h = elim (Bool-cases (p x)) [
    | inl e ↦ absurd (cc (rw (e, find) at h))
    | inr e ↦ rw e (not_found xs (rw (e, find) at h))
  ]

  -- Rows that pass the test are dropped, and others are put after the rest.
  pub find-replaced :
      (q : A → Bool) (xs ys : List A)
      → ((x : A) → p x ≡ true → q x ≡ false)
      → find p (keep q xs ++ ys) ≡ find p ys
  find-replaced q xs ys h =
      find-append_skip (keep q xs) ys (not_found (keep q xs) (find-dropped q xs h))

  pub find-one : (x : A) → p x ≡ true → find p (x ∷ []) ≡ some x
  unfolding find
  find-one x h = rw h refl

  pub find-other : (x : A) → p x ≡ false → find p (x ∷ []) ≡ none
  unfolding find
  find-other x h = rw h refl
