-- ===== src/Ingest/Files/Hidden.antt =====
-- A run does not take a file for deleted where it could not look.
use mathlib.Core.Path.{subst}
use local_graph_rag.Prelude.{
  ◌↔◌, ◌≡◌, refl, ap, inl, inr, true, false, Bool-cases, none, List, [], ◌∷◌, ◌++◌, map, In,
  In-append_left, In-append_right, contains, is_empty, nat_eq, list_eq, arith,
}
use local_graph_rag.Prelude.Text.{Str}
use local_graph_rag.Prelude.Members.{In-keep, In-of_any, any-of_In, In-of_keep}
use local_graph_rag.Graph.Tables.{Store}
use local_graph_rag.Graph.Reads.{list_all_paths}
use local_graph_rag.Graph.Reads.Sorting.{In-sort_by, In-of_sort_by}
use local_graph_rag.Ingest.Pipeline.{stale_paths}
use local_graph_rag.Ingest.Paths.{FilePath, path_of, path_text, is_relative_to, is_under_any_root}
use local_graph_rag.Ingest.Files.{
  Rules, FileEntry, accept_all, Dirs, Root, unlistable_root, listed_root, IndexPath, Walked, visit,
  enters, walk_dirs, walk_index_path, with_empty_root, collect_files, stale_after,
}
use local_graph_rag.Ingest.Files.Hiding.{
  HiddenBelow, not_listed, not_tested, within, past_unlistable, past_listed, Hidden, no_file,
  root_not_listed, root_not_tested, below,
}
use local_graph_rag.Ingest.Files.Unscanned.{unscanned-Hidden}

module _ (rules : Rules) (ip : IndexPath) where
  visit-unscanned :
      (here : FilePath) (fs : List FileEntry)
      → accept_all rules here fs ≡ none
      → In here (visit rules here fs).unscanned
  unfolding visit
  visit-unscanned here fs raises = rw (raises, In) (inl refl)

  walk_dirs-unscanned :
      (here : FilePath) (dirs : Dirs) (d : FilePath)
      → HiddenBelow rules ip here dirs d
      → In d (walk_dirs rules ip here dirs).unscanned
  unfolding walk_dirs visit
  walk_dirs-unscanned here _ _ (not_listed _ name l rest e) = rw (e, walk_dirs) (inl refl)
  walk_dirs-unscanned here _ _ (not_tested _ name l fs children rest e raises) =
      rw (e, walk_dirs)
        (In-append_left (here ++ name ∷ []) _ _ (visit-unscanned (here ++ name ∷ []) fs raises))
  walk_dirs-unscanned here _ d (within _ name l fs children rest _ e h) =
      rw (e, walk_dirs)
        (In-append_right d (visit rules (here ++ name ∷ []) fs).unscanned _
          (In-append_left d _ _ (walk_dirs-unscanned (here ++ name ∷ []) children d h)))
  walk_dirs-unscanned here _ d (past_unlistable _ name l rest _ h) =
      elim (Bool-cases (enters rules ip name l)) [
        | inl e ↦ rw (e, walk_dirs) (inr (walk_dirs-unscanned here rest d h))
        | inr e ↦ rw (e, walk_dirs) (walk_dirs-unscanned here rest d h)
      ]
  walk_dirs-unscanned here _ d (past_listed _ name l fs children rest _ h) =
      elim (Bool-cases (enters rules ip name l)) [
        | inl e ↦
            rw (e, walk_dirs)
              (In-append_right d (visit rules (here ++ name ∷ []) fs).unscanned _ (
                In-append_right d (walk_dirs rules ip (here ++ name ∷ []) children).unscanned _
                  (walk_dirs-unscanned here rest d h)))
        | inr e ↦ rw (e, walk_dirs) (walk_dirs-unscanned here rest d h)
      ]

  kept_unscanned :
      (found : Walked) (d : FilePath)
      → In d found.unscanned
      → In d (with_empty_root ip found).unscanned
  unfolding with_empty_root
  kept_unscanned found d h = elim (Bool-cases (is_empty found.files)) [
    | inl e ↦ rw e (In-append_left d found.unscanned (ip.path ∷ []) h)
    | inr e ↦ rw e h
  ]

  empty_unscanned :
      (found : Walked) → found.files ≡ [] → In ip.path (with_empty_root ip found).unscanned
  unfolding with_empty_root
  empty_unscanned found h =
      rw (ap is_empty h) (In-append_right ip.path found.unscanned (ip.path ∷ []) (inl refl))

  Hidden-unscanned :
      (root : Root) (d : FilePath)
      → Hidden rules ip root d
      → In d (with_empty_root ip (walk_index_path rules ip root)).unscanned
  unfolding walk_index_path visit
  Hidden-unscanned root _ (no_file _ h) = empty_unscanned (walk_index_path rules ip root) h
  Hidden-unscanned _ _ root_not_listed =
      kept_unscanned (walk_index_path rules ip unlistable_root) ip.path (inl refl)
  Hidden-unscanned _ _ (root_not_tested fs dirs raises) =
      kept_unscanned (walk_index_path rules ip (listed_root fs dirs)) ip.path
        (In-append_left ip.path _ _ (visit-unscanned ip.path fs raises))
  Hidden-unscanned _ _ (below fs dirs d h) =
      kept_unscanned (walk_index_path rules ip (listed_root fs dirs)) d (
        In-append_right d (visit rules ip.path fs).unscanned _
          (walk_dirs-unscanned ip.path dirs d h))

module _ (rules : Rules) where
  collect_files-unscanned :
      (paths : List (IndexPath × Root)) (ip : IndexPath) (root : Root) (d : FilePath)
      → In (ip, root) paths
      → Hidden rules ip root d
      → In d (collect_files rules paths).unscanned
  unfolding collect_files
  collect_files-unscanned [] ip root d m h = absurd m
  collect_files-unscanned ((ip', root') ∷ paths) ip root d (inl e) h = In-append_left d _ _ (
      subst
        (λ (p : IndexPath × Root).
          In d (with_empty_root p.0 (walk_index_path rules p.0 p.1)).unscanned)
        e (Hidden-unscanned rules ip root d h))
  collect_files-unscanned ((ip', root') ∷ paths) ip root d (inr m) h =
      In-append_right d (with_empty_root ip' (walk_index_path rules ip' root')).unscanned _
        (collect_files-unscanned paths ip root d m h)

  -- The path is under an index path that gave no file, or under a directory that the walk enters and
  -- cannot list or test.
  pub data OutOfSight (paths : List (IndexPath × Root)) (q : FilePath) : Type 0 where
    out_of_sight :
        (ip : IndexPath) (root : Root) (d : FilePath)
        → In (ip, root) paths
        → Hidden rules ip root d
        → is_relative_to q d ≡ true
        → OutOfSight paths q

  under_unscanned :
      (paths : List (IndexPath × Root)) (q : FilePath)
      → OutOfSight paths q
      → is_under_any_root q (collect_files rules paths).unscanned ≡ true
  unfolding is_under_any_root
  under_unscanned paths q (out_of_sight ip root d there hidden e) =
      any-of_In (λ r. is_relative_to q r) (collect_files rules paths).unscanned d
        (collect_files-unscanned paths ip root d there hidden) e

  unscanned_under :
      (paths : List (IndexPath × Root)) (q : FilePath)
      → is_under_any_root q (collect_files rules paths).unscanned ≡ true
      → OutOfSight paths q
  unfolding is_under_any_root
  unscanned_under paths q h =
      let (d, m, e) = In-of_any (λ r. is_relative_to q r) (collect_files rules paths).unscanned h in
      let (ip, (root, (there, hidden))) = unscanned-Hidden rules paths d m in
      out_of_sight ip root d there hidden e

  -- The paths that a run removes as stale are exactly the stored ones that were not found on disk and
  -- are not out of sight: under an index path that gave no file, or under a directory that the walk
  -- enters and cannot list or test.
  pub stale_after-exact :
      (paths : List (IndexPath × Root)) (s : Store) (q : Str)
      → In q (stale_after (collect_files rules paths) s) ↔ (
          In q (list_all_paths s)
          × ((contains q (map path_text (collect_files rules paths).files) ≡ false)
              × ¬ (OutOfSight paths (path_of q))))
  unfolding stale_after stale_paths
  stale_after-exact paths s q = (
    λ m.
        (let (stored, absent) = In-of_keep _ (list_all_paths s) q (In-of_sort_by _ q _ m) in
          (
            stored,
            (
              ground arith,
              λ out. (let under = under_unscanned paths (path_of q) out in absurd (ground arith)),
            ),
          )),
    λ h. In-sort_by _ q _ (
        In-keep _ (list_all_paths s) q h.0
          (elim (Bool-cases (is_under_any_root (path_of q) (collect_files rules paths).unscanned)) [
            | inl e ↦ absurd (h.1.1 (unscanned_under paths (path_of q) e))
            | inr e ↦ rw (h.1.0, e) refl
          ])),
  )
