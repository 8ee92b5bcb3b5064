-- ===== src/Graph/Neighborhood/Bounded.antt =====
-- What the expansion of a neighborhood selects.
use local_graph_rag.Prelude.{
  ℕ, zero, suc, ◌+◌, ◌-◌, ◌≤◌, ◌≡◌, refl, ◌∙◌, Bool, false, not, ◌||◌, List, [], ◌∷◌, ◌++◌, map,
  flatten, length, length-append, length-take-le, take, is_empty, keep, All, contains, leb, nat_eqb,
  nat_eq, list_eq, ◌==◌, Bool-cases, inl, inr, arith,
}
use local_graph_rag.Prelude.Text.{Str}
use local_graph_rag.Prelude.Members.{==-comm, or_none}
use local_graph_rag.Graph.Tables.{Relationship}
use local_graph_rag.Graph.Reads.{dedupe}
use local_graph_rag.Graph.Neighborhood.{
  ranked, zip_longest, pick_from, next_hop, expand_from, expand_ids,
}

-- No id stands twice.
pub data Distinct : List Str → Type 0 where
  nil : Distinct []
  cons : {x : Str} {xs : List Str} → contains x xs ≡ false → Distinct xs → Distinct (x ∷ xs)

pick_from-length :
    (budget : ℕ) (ns : List Str) (count : ℕ) (chosen : List Str)
    → suc count ≤ budget
    → length (pick_from budget count chosen ns) + count ≤ budget
unfolding pick_from
pick_from-length budget [] count chosen le = omega arith
pick_from-length budget (n ∷ ns) count chosen le = elim (Bool-cases (contains n chosen)) [
  | inl e ↦ rw e (pick_from-length budget ns count chosen le)
  | inr e ↦ elim (Bool-cases (nat_eqb (count + 1) budget)) [
    | inl e' ↦ rw (e, e') (omega arith)
    | inr e' ↦
        rw (e, e')
          (let rest = pick_from-length budget ns (count + 1) (n ∷ chosen) (ground arith) in
            omega arith)
  ]
]

-- The ids that are not in `chosen`.
abbrev Outside : List Str → List Str → Type 0
Outside chosen ns = All (λ n. contains n chosen ≡ false) ns

outside_cons :
    (n : Str) (chosen ms : List Str)
    → Outside (n ∷ chosen) ms
    → (contains n ms ≡ false) × Outside chosen ms
outside_cons n chosen [] o = (refl, tt)
outside_cons n chosen (m ∷ ms) o =
    let (differ, rest) = or_none (m == n) (contains m chosen) o.0 in
    let (later, others) = outside_cons n chosen ms o.1 in
    (rw (==-comm n m ∙ differ) later, (rest, others))

pick_from-Distinct :
    (budget : ℕ) (ns : List Str) (count : ℕ) (chosen : List Str)
    → Outside chosen (pick_from budget count chosen ns)
      × Distinct (pick_from budget count chosen ns)
unfolding pick_from
pick_from-Distinct budget [] count chosen = (tt, nil)
pick_from-Distinct budget (n ∷ ns) count chosen = elim (Bool-cases (contains n chosen)) [
  | inl e ↦ rw (e, All) (pick_from-Distinct budget ns count chosen)
  | inr e ↦ elim (Bool-cases (nat_eqb (count + 1) budget)) [
    | inl e' ↦ rw (e, e', All) ((e, tt), cons refl nil)
    | inr e' ↦
        let (o, d) = pick_from-Distinct budget ns (count + 1) (n ∷ chosen) in
        let split = outside_cons n chosen _ o in rw (e, e', All) ((e, split.1), cons split.0 d)
  ]
]

contains-append :
    (n : Str) (xs ys : List Str)
    → contains n xs ≡ false
    → contains n ys ≡ false
    → contains n (xs ++ ys) ≡ false
contains-append n [] ys e e' = e'
contains-append n (x ∷ xs) ys e e' =
    let (differ, rest) = or_none (n == x) (contains n xs) e in
    rw differ (contains-append n xs ys rest e')

Distinct-append :
    (xs ys : List Str) → Distinct xs → Distinct ys → Outside xs ys → Distinct (xs ++ ys)
Distinct-append [] ys d d' o = d'
Distinct-append (x ∷ xs) ys (cons e d) d' o =
    let (apart, rest) = outside_cons x xs ys o in
    cons (contains-append x xs ys e apart) (Distinct-append xs ys d d' rest)

contains-keep :
    (q : Str → Bool) (n : Str) (xs : List Str)
    → contains n xs ≡ false
    → contains n (keep q xs) ≡ false
contains-keep q n [] e = refl
contains-keep q n (x ∷ xs) e =
    let (differ, rest) = or_none (n == x) (contains n xs) e in
    elim (Bool-cases (q x)) [
      | inl e' ↦ rw (e', differ) (contains-keep q n xs rest)
      | inr e' ↦ rw e' (contains-keep q n xs rest)
    ]

Distinct-keep : (q : Str → Bool) (xs : List Str) → Distinct xs → Distinct (keep q xs)
Distinct-keep q [] d = nil
Distinct-keep q (x ∷ xs) (cons e d) = elim (Bool-cases (q x)) [
  | inl e' ↦ rw e' (cons (contains-keep q x xs e) (Distinct-keep q xs d))
  | inr e' ↦ rw e' (Distinct-keep q xs d)
]

contains-dropped : (x : Str) (xs : List Str) → contains x (keep (λ y. not (y == x)) xs) ≡ false
contains-dropped x [] = refl
contains-dropped x (y ∷ ys) = elim (Bool-cases (y == x)) [
  | inl e ↦ rw e (contains-dropped x ys)
  | inr e ↦ rw (e, ==-comm x y ∙ e) (contains-dropped x ys)
]

dedupe-Distinct : (xs : List Str) → Distinct (dedupe xs)
unfolding dedupe
dedupe-Distinct [] = nil
dedupe-Distinct (x ∷ xs) =
    cons (contains-dropped x (dedupe xs))
      (Distinct-keep (λ y. not (y == x)) (dedupe xs) (dedupe-Distinct xs))

contains-take :
    (n : ℕ) (x : Str) (xs : List Str) → contains x xs ≡ false → contains x (take n xs) ≡ false
contains-take zero x xs e = refl
contains-take (suc n) x [] e = refl
contains-take (suc n) x (y ∷ ys) e =
    let (differ, rest) = or_none (x == y) (contains x ys) e in rw differ (contains-take n x ys rest)

Distinct-take : (n : ℕ) (xs : List Str) → Distinct xs → Distinct (take n xs)
Distinct-take zero xs d = nil
Distinct-take (suc n) [] d = nil
Distinct-take (suc n) (x ∷ xs) (cons e d) = cons (contains-take n x xs e) (Distinct-take n xs d)

expand_from-bounded :
    (rels : List Relationship) (max_entities hops : ℕ) (frontier selected : List Str)
    → Distinct selected
    → length selected ≤ max_entities
    → Distinct (expand_from rels max_entities hops frontier selected)
      × (length (expand_from rels max_entities hops frontier selected) ≤ max_entities)
unfolding expand_from next_hop
expand_from-bounded rels max_entities zero frontier selected d le = (d, le)
expand_from-bounded rels max_entities (suc hops) frontier selected d le =
    elim (Bool-cases (is_empty frontier || leb max_entities (length selected))) [
      | inl e ↦ rw e (d, le)
      | inr e ↦
          let budget = max_entities - length selected in
          let ns = flatten (zip_longest (map (ranked rels selected) frontier)) in
          let found = next_hop rels frontier selected budget in
          let full = (or_none (is_empty frontier) (leb max_entities (length selected)) e).1 in
          let (o, d') = pick_from-Distinct budget ns 0 selected in
          let l = pick_from-length budget ns 0 selected (room (length selected) full) in
          rw e (
            expand_from-bounded rels max_entities hops found (selected ++ found)
              (Distinct-append selected found d d' o)
              (rw (length-append selected found) (omega arith)))
    ]
  where
    room : (n : ℕ) → leb max_entities n ≡ false → suc 0 ≤ max_entities - n
    room n e = ground arith

-- The expansion selects no entity twice and at most max_entities of them.
pub expand_ids-bounded :
    (rels : List Relationship) (seed_ids : List Str) (hops max_entities : ℕ)
    → Distinct (expand_ids rels seed_ids hops max_entities)
      × (length (expand_ids rels seed_ids hops max_entities) ≤ max_entities)
unfolding expand_ids
expand_ids-bounded rels seed_ids hops max_entities =
    let selected = take max_entities (dedupe seed_ids) in
    expand_from-bounded rels max_entities hops selected selected
      (Distinct-take max_entities (dedupe seed_ids) (dedupe-Distinct seed_ids))
      (length-take-le max_entities (dedupe seed_ids))
