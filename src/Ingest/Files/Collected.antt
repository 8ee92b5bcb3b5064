-- ===== src/Ingest/Files/Collected.antt =====
-- Exactly the files that pass the filters are collected.
use mathlib.Core.Path.{subst}
use local_graph_rag.Prelude.{
  ◌≡◌, ◌↔◌, refl, sym, inl, inr, Bool, true, Bool-cases, List, [], ◌∷◌, ◌++◌, In, In-append_left,
  In-append_right, is_empty, nat_eq, list_eq,
}
use local_graph_rag.Prelude.Text.{Str}
use local_graph_rag.Prelude.Members.{In-append}
use local_graph_rag.Ingest.Paths.{FilePath}
use local_graph_rag.Ingest.Files.{
  Rules, FileEntry, Dirs, no_more, unlistable, listed, Root, no_dir, unlistable_root, listed_root,
  IndexPath, Walked, visit, enters, walk_dirs, walk_index_path, with_empty_root, collect_files,
}
use local_graph_rag.Ingest.Files.Accepted.{FoundIn, visit-found, found-visit}

module _ (rules : Rules) where
  module _ (ip : IndexPath) where
    -- A file found in a directory that the walk enters, below `here`.
    pub data FoundBelow : FilePath → Dirs → FilePath → Type 0 where
      in_dir :
          (here : FilePath) (name : Str) (l : Bool) (fs : List FileEntry) (children rest : Dirs)
          (p : FilePath)
          → enters rules ip name l ≡ true
          → FoundIn rules (here ++ name ∷ []) fs p
          → FoundBelow here (listed name l fs children rest) p
      deeper :
          (here : FilePath) (name : Str) (l : Bool) (fs : List FileEntry) (children rest : Dirs)
          (p : FilePath)
          → enters rules ip name l ≡ true
          → FoundBelow (here ++ name ∷ []) children p
          → FoundBelow here (listed name l fs children rest) p
      past_unlistable :
          (here : FilePath) (name : Str) (l : Bool) (rest : Dirs) (p : FilePath)
          → FoundBelow here rest p
          → FoundBelow here (unlistable name l rest) p
      past_listed :
          (here : FilePath) (name : Str) (l : Bool) (fs : List FileEntry) (children rest : Dirs)
          (p : FilePath)
          → FoundBelow here rest p
          → FoundBelow here (listed name l fs children rest) p

    -- A file found in the directory of the index path, or below it.
    pub data Found : Root → FilePath → Type 0 where
      at_top :
          (fs : List FileEntry) (dirs : Dirs) (p : FilePath)
          → FoundIn rules ip.path fs p
          → Found (listed_root fs dirs) p
      below_top :
          (fs : List FileEntry) (dirs : Dirs) (p : FilePath)
          → FoundBelow ip.path dirs p
          → Found (listed_root fs dirs) p

    walk_dirs-found :
        (here : FilePath) (dirs : Dirs) (p : FilePath)
        → In p (walk_dirs rules ip here dirs).files
        → FoundBelow here dirs p
    unfolding walk_dirs
    walk_dirs-found here no_more p m = absurd m
    walk_dirs-found here (unlistable name l rest) p m = past_unlistable here name l rest p (
        walk_dirs-found here rest p
          (elim (Bool-cases (enters rules ip name l))
            as (λ v. In p (walk_dirs rules ip here rest).files) [
              | inl e ↦ subst (λ q. In p q) (rw (e, walk_dirs) refl) m
              | inr e ↦ subst (λ q. In p q) (rw (e, walk_dirs) refl) m
            ]))
    walk_dirs-found here (listed name l fs children rest) p m =
        elim (Bool-cases (enters rules ip name l)) [
          | inr e ↦
              past_listed here name l fs children rest p
                (walk_dirs-found here rest p (subst (λ q. In p q) (rw (e, walk_dirs) refl) m))
          | inl e ↦
              elim (In-append (visit rules (here ++ name ∷ []) fs).files
                ((walk_dirs rules ip (here ++ name ∷ []) children).files
                  ++ (walk_dirs rules ip here rest).files)
                p (subst (λ q. In p q) (rw (e, walk_dirs) refl) m)) [
                  | inl k ↦
                      in_dir here name l fs children rest p e
                        (visit-found rules (here ++ name ∷ []) fs p k)
                  | inr k ↦
                      elim (In-append (walk_dirs rules ip (here ++ name ∷ []) children).files
                        (walk_dirs rules ip here rest).files p k) [
                          | inl n ↦
                              deeper here name l fs children rest p e
                                (walk_dirs-found (here ++ name ∷ []) children p n)
                          | inr n ↦
                              past_listed here name l fs children rest p
                                (walk_dirs-found here rest p n)
                        ]
                ]
        ]

    walk_dirs_complete :
        (here : FilePath) (dirs : Dirs) (p : FilePath)
        → FoundBelow here dirs p
        → In p (walk_dirs rules ip here dirs).files
    unfolding walk_dirs
    walk_dirs_complete here _ p (in_dir _ name l fs children rest _ e h) =
        rw (e, walk_dirs) (In-append_left p _ _ (found-visit rules (here ++ name ∷ []) fs p h))
    walk_dirs_complete here _ p (deeper _ name l fs children rest _ e h) =
        rw (e, walk_dirs)
          (In-append_right p (visit rules (here ++ name ∷ []) fs).files _
            (In-append_left p _ _ (walk_dirs_complete (here ++ name ∷ []) children p h)))
    walk_dirs_complete here _ p (past_unlistable _ name l rest _ h) =
        elim (Bool-cases (enters rules ip name l)) [
          | inl e ↦ rw (e, walk_dirs) (walk_dirs_complete here rest p h)
          | inr e ↦ rw (e, walk_dirs) (walk_dirs_complete here rest p h)
        ]
    walk_dirs_complete here _ p (past_listed _ name l fs children rest _ h) =
        elim (Bool-cases (enters rules ip name l)) [
          | inr e ↦ rw (e, walk_dirs) (walk_dirs_complete here rest p h)
          | inl e ↦
              rw (e, walk_dirs)
                (In-append_right p (visit rules (here ++ name ∷ []) fs).files _ (
                  In-append_right p (walk_dirs rules ip (here ++ name ∷ []) children).files _
                    (walk_dirs_complete here rest p h)))
        ]

    walk_sound :
        (root : Root) (p : FilePath) → In p (walk_index_path rules ip root).files → Found root p
    unfolding walk_index_path
    walk_sound no_dir p m = absurd m
    walk_sound unlistable_root p m = absurd m
    walk_sound (listed_root fs dirs) p m =
        elim (In-append (visit rules ip.path fs).files (walk_dirs rules ip ip.path dirs).files p
          m) [
            | inl k ↦ at_top fs dirs p (visit-found rules ip.path fs p k)
            | inr k ↦ below_top fs dirs p (walk_dirs-found ip.path dirs p k)
          ]

    walk_complete :
        (root : Root) (p : FilePath) → Found root p → In p (walk_index_path rules ip root).files
    unfolding walk_index_path
    walk_complete _ p (at_top fs dirs _ h) = In-append_left p _ _ (found-visit rules ip.path fs p h)
    walk_complete _ p (below_top fs dirs _ h) =
        In-append_right p (visit rules ip.path fs).files _ (walk_dirs_complete ip.path dirs p h)

    same_files : (w : Walked) → (with_empty_root ip w).files ≡ w.files
    unfolding with_empty_root
    same_files w = elim (Bool-cases (is_empty w.files)) [ inl e ↦ rw e refl | inr e ↦ rw e refl ]

  FoundAmong : List (IndexPath × Root) → FilePath → Type 0
  FoundAmong paths p = (ip : IndexPath) × ((root : Root) × (In (ip, root) paths × Found ip root p))

  among :
      (paths : List (IndexPath × Root)) (p : FilePath)
      → In p (collect_files rules paths).files
      → FoundAmong paths p
  unfolding collect_files FoundAmong
  among [] p m = absurd m
  among ((ip, root) ∷ paths) p m =
      elim (In-append (with_empty_root ip (walk_index_path rules ip root)).files
        (collect_files rules paths).files p m) [
          | inl k ↦ (
            ip,
            (
              root,
              (
                inl refl,
                walk_sound ip root p
                    (subst (λ q. In p q) (same_files ip (walk_index_path rules ip root)) k),
              ),
            ),
          )
          | inr k ↦ (let (ip', (root', (n, f))) = among paths p k in (ip', (root', (inr n, f))))
        ]

  of_among :
      (paths : List (IndexPath × Root)) (p : FilePath) (ip : IndexPath) (root : Root)
      → In (ip, root) paths
      → Found ip root p
      → In p (collect_files rules paths).files
  unfolding collect_files
  of_among [] p ip root m f = absurd m
  of_among ((ip', root') ∷ paths) p ip root (inl e) f = In-append_left p _ _ (
      subst
        (λ (x : IndexPath × Root). In p (with_empty_root x.0 (walk_index_path rules x.0 x.1)).files)
        e
        (subst (λ q. In p q) (sym (same_files ip (walk_index_path rules ip root)))
          (walk_complete ip root p f)))
  of_among ((ip', root') ∷ paths) p ip root (inr m) f =
      In-append_right p (with_empty_root ip' (walk_index_path rules ip' root')).files _
        (of_among paths p ip root m f)

  -- A run collects exactly the files that pass the filters and stand in the directory of an index
  -- path, or below it in a directory that the walk enters, if each file there can be tested.
  pub collect_files-exact :
      (paths : List (IndexPath × Root)) (p : FilePath)
      → In p (collect_files rules paths).files
        ↔ ((ip : IndexPath) × ((root : Root) × (In (ip, root) paths × Found ip root p)))
  unfolding FoundAmong
  collect_files-exact paths p =
      (λ m. among paths p m, λ h. of_among paths p h.0 h.1.0 h.1.1.0 h.1.1.1)
