-- ===== src/Rag/Scope/Paths.antt =====
-- Which paths a question is answered from.
use mathlib.Core.Path.{subst}
use local_graph_rag.Prelude.{
  ◌≡◌, refl, sym, ap, ◌∙◌, ◌⊎◌, inl, inr, true, false, Bool-cases, some, Option-cases, List, [],
  ◌∷◌, map, flatten, In, All, contains, is_empty, nat_eq, list_eq, ◌==◌, eq_iff,
}
use local_graph_rag.Prelude.Text.{Str}
use local_graph_rag.Prelude.Members.{All-of_In, In-append, In-of_keep}
use local_graph_rag.Graph.Tables.{Store}
use local_graph_rag.Graph.Reads.{list_all_paths}
use local_graph_rag.Graph.Reads.Sorting.{In-of_sort_by}
use local_graph_rag.Ingest.Paths.{FilePath, path_of}
use local_graph_rag.Rag.Scope.{
  Groups, Histories, add_path, set_history, paths_in, project_of, history_stem, add_histories,
  group_from, group_by_project, is_named, match_projects, project_paths,
}

In-add_path :
    (name p : Str) (n q : Str) (gs : Groups)
    → In q (paths_in n (add_path name p gs))
    → In q (paths_in n gs) ⊎ ((q ≡ p) × (n ≡ name))
unfolding add_path paths_in
In-add_path name p n q [] m = elim (Bool-cases (name == n)) [
  | inr e ↦ absurd (rw (e, In) at m)
  | inl e ↦ elim (rw (e, paths_in) at m) as (λ v. In q (paths_in n []) ⊎ ((q ≡ p) × (n ≡ name))) [
    | inl own ↦ inr (own, sym ((eq_iff name n).0 e))
    | inr k ↦ absurd k
  ]
]
In-add_path name p n q ((k, ps) ∷ gs) m = elim (Bool-cases (k == name)) [
  | inl e ↦ elim (Bool-cases (k == n)) [
    | inr o ↦ inl (rw (o, paths_in) (rw (e, paths_in, o, add_path) at m))
    | inl o ↦
        elim (In-append ps (p ∷ []) q (rw (e, paths_in, o, add_path) at m))
          as (λ v. In q (paths_in n ((k, ps) ∷ gs)) ⊎ ((q ≡ p) × (n ≡ name))) [
            | inl i ↦ inl (rw (o, paths_in) i)
            | inr (inl own) ↦ inr (own, sym ((eq_iff k n).0 o) ∙ (eq_iff k name).0 e)
            | inr (inr i) ↦ absurd i
          ]
  ]
  | inr e ↦ elim (Bool-cases (k == n)) [
    | inl o ↦ inl (rw (o, paths_in) (rw (e, paths_in, o, add_path) at m))
    | inr o ↦
        elim (In-add_path name p n q gs (rw (e, paths_in, o, add_path) at m))
          as (λ v. In q (paths_in n ((k, ps) ∷ gs)) ⊎ ((q ≡ p) × (n ≡ name))) [
            | inl i ↦ inl (rw (o, paths_in) i)
            | inr own ↦ inr own
          ]
  ]
]

module _ (history_dir : FilePath) (roots : List FilePath) (stored : List Str) where
  -- The path is stored, and in a project of this name or its history document.
  pub record Belongs (name p : Str) : Type 0 where
    pub is_stored : In p stored
    pub place :
        (project_of roots (path_of p) ≡ some name)
        ⊎ (history_stem history_dir (path_of p) ≡ some name)

  AllBelong : Groups → Type 0
  AllBelong gs = (n q : Str) → In q (paths_in n gs) → Belongs n q

  add_path-Belongs :
      (name p : Str) (gs : Groups) → Belongs name p → AllBelong gs → AllBelong (add_path name p gs)
  unfolding AllBelong
  add_path-Belongs name p gs b all_ n q m = elim (In-add_path name p n q gs m) [
    | inl i ↦ all_ n q i
    | inr (own, e) ↦ subst (λ x. Belongs n x) (sym own) (subst (λ x. Belongs x p) (sym e) b)
  ]

  set_history-Belongs :
      (stem p : Str) (hs : Histories)
      → Belongs stem p
      → All (λ (h : Str × Str). Belongs h.0 h.1) hs
      → All (λ (h : Str × Str). Belongs h.0 h.1) (set_history stem p hs)
  unfolding set_history
  set_history-Belongs stem p [] b a = (b, tt)
  set_history-Belongs stem p ((s, q) ∷ hs) b (own, rest) = elim (Bool-cases (s == stem)) [
    | inl e ↦ rw (e, set_history) (subst (λ x. Belongs x p) (sym ((eq_iff s stem).0 e)) b, rest)
    | inr e ↦ rw (e, set_history) (own, set_history-Belongs stem p hs b rest)
  ]

  add_histories-Belongs :
      (hs : Histories) (gs : Groups)
      → All (λ (h : Str × Str). Belongs h.0 h.1) hs
      → AllBelong gs
      → AllBelong (add_histories hs gs)
  unfolding add_histories
  add_histories-Belongs [] gs a all_ = all_
  add_histories-Belongs ((stem, p) ∷ hs) gs (own, rest) all_ =
      elim (Bool-cases (contains stem (map (λ (g : Str × List Str). g.0) gs))) [
        | inl e ↦
            rw (e, add_histories)
              (add_histories-Belongs hs (add_path stem p gs) rest
                (add_path-Belongs stem p gs own all_))
        | inr e ↦ rw (e, add_histories) (add_histories-Belongs hs gs rest all_)
      ]

  group_from-Belongs :
      (ps : List Str) (gs : Groups) (hs : Histories)
      → ((p : Str) → In p ps → In p stored)
      → AllBelong gs
      → All (λ (h : Str × Str). Belongs h.0 h.1) hs
      → AllBelong (group_from history_dir roots ps gs hs)
  unfolding group_from
  group_from-Belongs [] gs hs from all_ a = add_histories-Belongs hs gs a all_
  group_from-Belongs (p ∷ ps) gs hs from all_ a =
      elim (Option-cases (history_stem history_dir (path_of p))) [
        | inr (stem, e) ↦
            rw (e, group_from)
              (group_from-Belongs ps gs (set_history stem p hs) (λ q m. from q (inr m)) all_
                (set_history-Belongs stem p hs
                  (record { is_stored = from p (inl refl); place = inr e }) a))
        | inl e ↦ elim (Option-cases (project_of roots (path_of p))) [
          | inr (name, o) ↦
              rw (e, group_from, o)
                (group_from-Belongs ps (add_path name p gs) hs (λ q m. from q (inr m))
                  (add_path-Belongs name p gs
                    (record { is_stored = from p (inl refl); place = inl o }) all_)
                  a)
          | inl o ↦
              rw (e, group_from, o) (group_from-Belongs ps gs hs (λ q m. from q (inr m)) all_ a)
        ]
      ]

In-of_flatten :
    (f : Str → List Str) (names : List Str) (p : Str)
    → In p (flatten (map f names))
    → (name : Str) × (In name names × In p (f name))
unfolding flatten
In-of_flatten f [] p m = absurd m
In-of_flatten f (n ∷ ns) p m = elim (In-append (f n) (flatten (map f ns)) p m) [
  | inl k ↦ (n, (inl refl, k))
  | inr k ↦ (let (name, (i, h)) = In-of_flatten f ns p k in (name, (inr i, h)))
]

-- The names of the projects that have stored paths.
abbrev pub project_names : FilePath → List FilePath → Store → List Str
project_names history_dir roots s =
    map (λ (g : Str × List Str). g.0) (group_by_project history_dir roots (list_all_paths s))

-- If retrieval is narrowed, then to some path, and each is a stored path of a project that the
-- question names, or a stored history document of that name.
pub project_paths-Belongs :
    (history_dir : FilePath) (roots : List FilePath) (question : Str) (s : Store) (found : List Str)
    → project_paths history_dir roots question s ≡ some found
    → (is_empty found ≡ false)
      × All
          (λ p.
            (name : Str) × (In name (project_names history_dir roots s)
              × ((is_named question (project_names history_dir roots s) name ≡ true)
                  × Belongs history_dir roots (list_all_paths s) name p)))
          found
unfolding project_paths group_by_project match_projects AllBelong
project_paths-Belongs history_dir roots question s found h =
    let groups = group_by_project history_dir roots (list_all_paths s) in
    let names = match_projects question (map (λ (g : Str × List Str). g.0) groups) in
    let all_found : List Str = flatten (map (λ name. paths_in name groups) names) in
    elim (Bool-cases (is_empty roots)) [
      | inl e ↦ absurd (cc (rw (e, project_paths) at h))
      | inr e ↦ elim (Bool-cases (is_empty all_found)) [
        | inl o ↦ absurd (cc (rw (e, o, project_paths) at h))
        | inr o ↦
            let same : all_found ≡ found = cc (rw (e, o, project_paths) at h) in
            (
              sym (ap is_empty same) ∙ o,
              All-of_In _ found (λ p m.
                  (let (name, (i, k)) =
                      In-of_flatten (λ name. paths_in name groups) names p
                        (subst (λ l. In p l) (sym same) m) in
                    let (known, own) =
                      In-of_keep (is_named question (project_names history_dir roots s))
                        (project_names history_dir roots s) name (In-of_sort_by _ name _ i) in
                    (
                      name,
                      (
                        known,
                        (
                          own,
                          group_from-Belongs history_dir roots (list_all_paths s) (list_all_paths s)
                              [] [] (λ q n. n) (λ n q n'. absurd n') tt name p k,
                        ),
                      ),
                    ))),
            )
      ]
    ]
