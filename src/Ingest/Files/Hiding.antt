-- ===== src/Ingest/Files/Hiding.antt =====
-- What a walk cannot see.
use local_graph_rag.Prelude.{◌≡◌, Bool, true, none, List, [], ◌∷◌, ◌++◌, nat_eq, list_eq}
use local_graph_rag.Prelude.Text.{Str}
use local_graph_rag.Ingest.Paths.{FilePath}
use local_graph_rag.Ingest.Files.{
  Rules, FileEntry, accept_all, Dirs, unlistable, listed, Root, unlistable_root, listed_root,
  IndexPath, enters, walk_index_path,
}

module _ (rules : Rules) (ip : IndexPath) where
  -- A directory below `here` that the walk enters and cannot list, or whose files it cannot test.
  pub data HiddenBelow : FilePath → Dirs → FilePath → Type 0 where
    not_listed :
        (here : FilePath) (name : Str) (l : Bool) (rest : Dirs)
        → enters rules ip name l ≡ true
        → HiddenBelow here (unlistable name l rest) (here ++ name ∷ [])
    not_tested :
        (here : FilePath) (name : Str) (l : Bool) (fs : List FileEntry) (children rest : Dirs)
        → enters rules ip name l ≡ true
        → accept_all rules (here ++ name ∷ []) fs ≡ none
        → HiddenBelow here (listed name l fs children rest) (here ++ name ∷ [])
    within :
        (here : FilePath) (name : Str) (l : Bool) (fs : List FileEntry) (children rest : Dirs)
        (d : FilePath)
        → enters rules ip name l ≡ true
        → HiddenBelow (here ++ name ∷ []) children d
        → HiddenBelow here (listed name l fs children rest) d
    past_unlistable :
        (here : FilePath) (name : Str) (l : Bool) (rest : Dirs) (d : FilePath)
        → HiddenBelow here rest d
        → HiddenBelow here (unlistable name l rest) d
    past_listed :
        (here : FilePath) (name : Str) (l : Bool) (fs : List FileEntry) (children rest : Dirs)
        (d : FilePath)
        → HiddenBelow here rest d
        → HiddenBelow here (listed name l fs children rest) d

  -- The path of the index path where it gives no file, or a directory in it that stays hidden.
  pub data Hidden : Root → FilePath → Type 0 where
    no_file : (root : Root) → (walk_index_path rules ip root).files ≡ [] → Hidden root ip.path
    root_not_listed : Hidden unlistable_root ip.path
    root_not_tested :
        (fs : List FileEntry) (dirs : Dirs)
        → accept_all rules ip.path fs ≡ none
        → Hidden (listed_root fs dirs) ip.path
    below :
        (fs : List FileEntry) (dirs : Dirs) (d : FilePath)
        → HiddenBelow ip.path dirs d
        → Hidden (listed_root fs dirs) d
