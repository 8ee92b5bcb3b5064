-- ===== src/Graph/Slug/Idempotent.antt =====
-- A slug is its own slug.
use local_graph_rag.Prelude.{
  ℕ, ◌≡◌, refl, ap, ◌∙◌, Bool, true, false, ◌&&◌, [], ◌∷◌, is_empty, if◌then◌else◌, arith,
  Bool-cases, inl, inr, ◌⊎◌,
}
use local_graph_rag.Prelude.Text.{
  Str, is_space, drop_while, rstrip, strip_of, strip, lower_code, lower,
}
use local_graph_rag.Prelude.Strip.{strip_of-strip_of}
use local_graph_rag.Graph.Slug.{is_word, is_underscore, collapse, slugify}

-- Letters, digits and single underscores; `after` says that an underscore stands before.
abbrev pub IsCollapsed : Bool → Str → Type 0
IsCollapsed after [] = Unit
IsCollapsed after (c ∷ cs) =
    ((is_word c ≡ true) × IsCollapsed false cs)
    ⊎ ((c ≡ 95) × ((after ≡ false) × IsCollapsed true cs))

collapse-IsCollapsed : (s : Str) (in_run : Bool) → IsCollapsed in_run (collapse in_run s)
unfolding collapse
collapse-IsCollapsed [] in_run = tt
collapse-IsCollapsed (c ∷ cs) in_run = elim (Bool-cases (is_word c)) [
  | inl e ↦ rw (e, IsCollapsed) (inl (e, collapse-IsCollapsed cs false))
  | inr e ↦ elim (Bool-cases in_run) [
    | inl r ↦ rw (e, r, IsCollapsed) (collapse-IsCollapsed cs true)
    | inr r ↦ rw (e, r, IsCollapsed) (inr (refl, (refl, collapse-IsCollapsed cs true)))
  ]
]

collapse-fixed : (s : Str) (after : Bool) → IsCollapsed after s → collapse after s ≡ s
unfolding collapse
collapse-fixed [] after h = refl
collapse-fixed (c ∷ cs) after (inl h) = rw h.0 (ap (λ t. c ∷ t) (collapse-fixed cs false h.1))
collapse-fixed (c ∷ cs) after (inr h) =
    rw (underscore c h.0, h.1.0) (rw h.0 (ap (λ t. 95 ∷ t) (collapse-fixed cs true h.1.1)))
  where
    underscore : (c : ℕ) → c ≡ 95 → is_word c ≡ false
    underscore c e = rw e (unfold is_word in refl)

word-is_underscore : (c : ℕ) → is_word c ≡ true → is_underscore c ≡ false
unfolding is_word
word-is_underscore c h = ground arith

drop_while-IsCollapsed :
    (s : Str) (after : Bool) → IsCollapsed after s → IsCollapsed false (drop_while is_underscore s)
unfolding drop_while
drop_while-IsCollapsed [] after h = tt
drop_while-IsCollapsed (c ∷ cs) after (inl h) = rw (word-is_underscore c h.0, IsCollapsed) (inl h)
drop_while-IsCollapsed (c ∷ cs) after (inr h) =
    rw (h.0, IsCollapsed) (drop_while-IsCollapsed cs true h.1.1)

rstrip-IsCollapsed :
    (s : Str) (after : Bool) → IsCollapsed after s → IsCollapsed after (rstrip is_underscore s)
unfolding rstrip
rstrip-IsCollapsed [] after h = tt
rstrip-IsCollapsed (c ∷ cs) after h =
    elim (Bool-cases (is_empty (rstrip is_underscore cs) && is_underscore c)) [
      | inl e ↦ rw (e, IsCollapsed) tt
      | inr e ↦
          rw (e, IsCollapsed)
            (elim h [
              | inl k ↦ inl (k.0, rstrip-IsCollapsed cs false k.1)
              | inr k ↦ inr (k.0, (k.1.0, rstrip-IsCollapsed cs true k.1.1))
            ])
    ]

word-kept : (c : ℕ) → is_word c ≡ true → (lower_code c ≡ c ∷ []) × (is_space c ≡ false)
unfolding is_word lower_code is_space
word-kept c h = (ground arith, ground arith)

lower-fixed : (s : Str) (after : Bool) → IsCollapsed after s → lower s ≡ s
unfolding lower lower_code
lower-fixed [] after h = refl
lower-fixed (c ∷ cs) after (inl h) =
    rw ((word-kept c h.0).0) (ap (λ t. c ∷ t) (lower-fixed cs false h.1))
lower-fixed (c ∷ cs) after (inr h) = rw h.0 (ap (λ t. 95 ∷ t) (lower-fixed cs true h.1.1))

spaceless : (c : ℕ) (cs : Str) (after : Bool) → IsCollapsed after (c ∷ cs) → is_space c ≡ false
spaceless c cs after (inl h) = (word-kept c h.0).1
spaceless c cs after (inr h) = rw h.0 (unfold is_space in refl)

drop_while-fixed : (s : Str) (after : Bool) → IsCollapsed after s → drop_while is_space s ≡ s
unfolding drop_while
drop_while-fixed [] after h = refl
drop_while-fixed (c ∷ cs) after h = rw (spaceless c cs after h, drop_while)

keep_head :
    (c : ℕ) (cs : Str)
    → is_space c ≡ false
    → (if is_empty cs && is_space c then [] else c ∷ cs) ≡ c ∷ cs
keep_head c cs e = ground arith

rstrip-fixed : (s : Str) (after : Bool) → IsCollapsed after s → rstrip is_space s ≡ s
unfolding rstrip
rstrip-fixed [] after h = refl
rstrip-fixed (c ∷ cs) after (inl h) =
    rw (rstrip-fixed cs false h.1) (keep_head c cs (spaceless c cs after (inl h)))
rstrip-fixed (c ∷ cs) after (inr h) =
    rw (rstrip-fixed cs true h.1.1) (keep_head c cs (spaceless c cs after (inr h)))

slugify-IsCollapsed : (s : Str) → IsCollapsed false (slugify s)
unfolding slugify strip_of
slugify-IsCollapsed s =
    rstrip-IsCollapsed _ false
      (drop_while-IsCollapsed _ false (collapse-IsCollapsed (strip (lower s)) false))

collapsed-slugify : (s : Str) → IsCollapsed false s → slugify s ≡ strip_of is_underscore s
unfolding slugify strip strip_of
collapsed-slugify s h = rw (
  lower-fixed s false h,
  drop_while-fixed s false h,
  rstrip-fixed s false h,
  collapse-fixed s false h,
)

-- For every text, slugify of its slug is the slug.
pub slugify-idempotent : (s : Str) → slugify (slugify s) ≡ slugify s
slugify-idempotent s = collapsed-slugify (slugify s) (slugify-IsCollapsed s) ∙ stripped
  where
    stripped : strip_of is_underscore (slugify s) ≡ slugify s
    stripped = unfold slugify in strip_of-strip_of is_underscore (collapse false (strip (lower s)))
