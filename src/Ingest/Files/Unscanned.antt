-- ===== src/Ingest/Files/Unscanned.antt =====
-- Every path that a walk reports as not scanned is hidden from it.
use mathlib.Core.Path.{subst}
use local_graph_rag.Prelude.{
  ◌≡◌, refl, sym, inl, inr, true, Bool-cases, none, Option-cases, List, [], ◌∷◌, ◌++◌, In, is_empty,
}
use local_graph_rag.Prelude.Members.{In-append}
use local_graph_rag.Ingest.Paths.{FilePath}
use local_graph_rag.Ingest.Files.{
  Rules, FileEntry, accept_all, Dirs, no_more, unlistable, listed, Root, no_dir, unlistable_root,
  listed_root, IndexPath, visit, enters, walk_dirs, walk_index_path, with_empty_root, collect_files,
}
use local_graph_rag.Ingest.Files.Hiding.{
  HiddenBelow, not_listed, not_tested, within, past_unlistable, past_listed, Hidden, no_file,
  root_not_listed, root_not_tested, below,
}

module _ (rules : Rules) where
  untested :
      (here : FilePath) (fs : List FileEntry) (d : FilePath)
      → In d (visit rules here fs).unscanned
      → (d ≡ here) × (accept_all rules here fs ≡ none)
  unfolding visit
  untested here fs d m = elim (Option-cases (accept_all rules here fs)) [
    | inr (ps, e) ↦ absurd (rw (e, visit, In) at m)
    | inl e ↦
        elim (rw (e, visit, In) at m) as (λ v. (d ≡ here) × (accept_all rules here fs ≡ none)) [
          | inl own ↦ (own, e)
          | inr k ↦ absurd k
        ]
  ]

  module _ (ip : IndexPath) where
    walk_dirs-Hidden :
        (here : FilePath) (dirs : Dirs) (d : FilePath)
        → In d (walk_dirs rules ip here dirs).unscanned
        → HiddenBelow rules ip here dirs d
    unfolding walk_dirs
    walk_dirs-Hidden here no_more d m = absurd m
    walk_dirs-Hidden here (unlistable name l rest) d m =
        elim (Bool-cases (enters rules ip name l)) [
          | inr e ↦
              past_unlistable here name l rest d
                (walk_dirs-Hidden here rest d (subst (λ q. In d q) (rw (e, walk_dirs) refl) m))
          | inl e ↦
              elim (subst (λ q. In d q)
                  {y = (here ++ name ∷ []) ∷ (walk_dirs rules ip here rest).unscanned}
                  (rw (e, walk_dirs) refl) m)
                as (λ v. HiddenBelow rules ip here (unlistable name l rest) d) [
                  | inl own ↦
                      subst (λ x. HiddenBelow rules ip here (unlistable name l rest) x) (sym own)
                        (not_listed here name l rest e)
                  | inr k ↦ past_unlistable here name l rest d (walk_dirs-Hidden here rest d k)
                ]
        ]
    walk_dirs-Hidden here (listed name l fs children rest) d m =
        elim (Bool-cases (enters rules ip name l)) [
          | inr e ↦
              past_listed here name l fs children rest d
                (walk_dirs-Hidden here rest d (subst (λ q. In d q) (rw (e, walk_dirs) refl) m))
          | inl e ↦
              elim (In-append (visit rules (here ++ name ∷ []) fs).unscanned
                ((walk_dirs rules ip (here ++ name ∷ []) children).unscanned
                  ++ (walk_dirs rules ip here rest).unscanned)
                d (subst (λ q. In d q) (rw (e, walk_dirs) refl) m)) [
                  | inl k ↦
                      (let (own, raises) = untested (here ++ name ∷ []) fs d k in
                        subst (λ x. HiddenBelow rules ip here (listed name l fs children rest) x)
                          (sym own) (not_tested here name l fs children rest e raises))
                  | inr k ↦
                      elim (In-append (walk_dirs rules ip (here ++ name ∷ []) children).unscanned
                        (walk_dirs rules ip here rest).unscanned d k) [
                          | inl n ↦
                              within here name l fs children rest d e
                                (walk_dirs-Hidden (here ++ name ∷ []) children d n)
                          | inr n ↦
                              past_listed here name l fs children rest d
                                (walk_dirs-Hidden here rest d n)
                        ]
                ]
        ]

    walk-Hidden :
        (root : Root) (d : FilePath)
        → In d (walk_index_path rules ip root).unscanned
        → Hidden rules ip root d
    unfolding walk_index_path
    walk-Hidden no_dir d m = absurd m
    walk-Hidden unlistable_root d (inl own) =
        subst (λ x. Hidden rules ip unlistable_root x) (sym own) root_not_listed
    walk-Hidden unlistable_root d (inr k) = absurd k
    walk-Hidden (listed_root fs dirs) d m =
        elim (In-append (visit rules ip.path fs).unscanned
          (walk_dirs rules ip ip.path dirs).unscanned d m) [
            | inl k ↦
                (let (own, raises) = untested ip.path fs d k in
                  subst (λ x. Hidden rules ip (listed_root fs dirs) x) (sym own)
                    (root_not_tested fs dirs raises))
            | inr k ↦ below fs dirs d (walk_dirs-Hidden ip.path dirs d k)
          ]

    nil_of : (l : List FilePath) → is_empty l ≡ true → l ≡ []
    nil_of [] h = refl
    nil_of (x ∷ xs) h = absurd (cc h)

    root-Hidden :
        (root : Root) (d : FilePath)
        → In d (with_empty_root ip (walk_index_path rules ip root)).unscanned
        → Hidden rules ip root d
    unfolding with_empty_root
    root-Hidden root d m = elim (Bool-cases (is_empty (walk_index_path rules ip root).files)) [
      | inr e ↦ walk-Hidden root d (subst (λ q. In d q) (rw (e, with_empty_root) refl) m)
      | inl e ↦
          elim (In-append (walk_index_path rules ip root).unscanned (ip.path ∷ []) d
            (subst (λ q. In d q) (rw (e, with_empty_root) refl) m)) [
              | inl k ↦ walk-Hidden root d k
              | inr (inl own) ↦
                  subst (λ x. Hidden rules ip root x) (sym own)
                    (no_file root (nil_of (walk_index_path rules ip root).files e))
              | inr (inr k) ↦ absurd k
            ]
    ]

  pub unscanned-Hidden :
      (paths : List (IndexPath × Root)) (d : FilePath)
      → In d (collect_files rules paths).unscanned
      → (ip : IndexPath) × ((root : Root) × (In (ip, root) paths × Hidden rules ip root d))
  unfolding collect_files
  unscanned-Hidden [] d m = absurd m
  unscanned-Hidden ((ip, root) ∷ paths) d m =
      elim (In-append (with_empty_root ip (walk_index_path rules ip root)).unscanned
        (collect_files rules paths).unscanned d m) [
          | inl k ↦ (ip, (root, (inl refl, root-Hidden ip root d k)))
          | inr k ↦
              (let (ip', (root', (n, h))) = unscanned-Hidden paths d k in
                (ip', (root', (inr n, h))))
        ]
