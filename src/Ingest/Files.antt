-- ===== src/Ingest/Files.antt =====
-- src/local_graph_rag/ingest/index_documents.py: which files a run indexes, and which stored paths it
-- removes; the directories are given as what the run sees of them. Every directory of a walk is real and every file accepted is no
-- link, so that `resolve` leaves their paths as they are.
pub mod Accepted
pub mod Collected
pub mod Hiding
pub mod Hidden
pub mod Unscanned
use local_graph_rag.Prelude.{
  ℕ, suc, ◌+◌, Bool, true, false, not, ◌&&◌, ◌||◌, Option, none, some, List, [], ◌∷◌, ◌++◌, map,
  keep, any, length, contains, is_empty, leb, ltb, nat_eq, list_eq, ◌==◌, nat_eqb, if◌then◌else◌,
}
use local_graph_rag.Prelude.Text.{Str, codes, lower, starts_with, split_on, join}
use local_graph_rag.Graph.Tables.{Store}
use local_graph_rag.Ingest.Pipeline.{stale_paths}
use local_graph_rag.Ingest.Paths.{
  FilePath, normalize_extension, normalize_extensions, last_dot, suffix_of, name_of,
  has_allowed_extension, with_slashes, is_relative_to, is_under_any_root, path_of, path_text,
  pattern_matches,
}

-- `fnmatch` of a text and a pattern, the ignore patterns, _DOCS_ROOTS, _ALLOWED and
-- MAX_INDEX_FILE_BYTES.
pub record Rules : Type 0 where
  pub fnmatch : Str → Str → Bool
  pub ignore : List Str
  pub docs_roots : List FilePath
  pub allowed : List Str
  pub max_file_bytes : ℕ

-- matches_ignore_pattern of a name, which is a path of one part
unfoldable pub matches_ignore_pattern : Rules → Str → Bool
unfolding pattern_matches
matches_ignore_pattern rules name =
    any (λ pattern. pattern_matches rules.fnmatch pattern (name ∷ []) name (with_slashes name))
      rules.ignore

-- A file name, and what the tests of its path see: `is_symlink` is none where it raises, and `size`
-- where `stat` does.
pub record FileEntry : Type 0 where
  pub name : Str
  pub is_symlink : Option Bool
  pub resolves : Bool
  pub is_file : Bool
  pub size : Option ℕ

unfoldable pub is_within_size_limit : ℕ → Option ℕ → Bool
is_within_size_limit limit none = false
is_within_size_limit limit (some size) = leb size limit

-- _is_safe_indexable_file, none where it raises
unfoldable pub is_safe_indexable_file : Rules → FilePath → FileEntry → Option Bool
unfolding is_under_any_root has_allowed_extension is_within_size_limit
is_safe_indexable_file rules path f = elim f.is_symlink [
  | none ↦ none
  | some true ↦ some false
  | some false ↦ some (
      f.resolves
      && (f.is_file
          && (is_under_any_root path rules.docs_roots
              && (has_allowed_extension path rules.allowed
                  && is_within_size_limit rules.max_file_bytes f.size))))
]

-- _accept of a file in `here`
unfoldable pub accept : Rules → FilePath → FileEntry → Option Bool
unfolding matches_ignore_pattern is_safe_indexable_file
accept rules here f =
    if matches_ignore_pattern rules f.name
    then some false
    else is_safe_indexable_file rules (here ++ f.name ∷ []) f

-- The comprehension over the file names of `here`, none if a test raises.
unfoldable pub accept_all : Rules → FilePath → List FileEntry → Option (List FilePath)
unfolding accept
accept_all rules here [] = some []
accept_all rules here (f ∷ fs) =
    let rest = accept_all rules here fs in
    elim (accept rules here f) [
      | none ↦ none
      | some true ↦ elim rest [ none ↦ none | some paths ↦ some ((here ++ f.name ∷ []) ∷ paths) ]
      | some false ↦ rest
    ]

-- The subdirectories of a directory, each with whether it is a link and with what it holds, unless
-- its listing fails.
pub data Dirs : Type 0 where
  no_more : Dirs
  unlistable : Str → Bool → Dirs → Dirs
  listed : Str → Bool → List FileEntry → Dirs → Dirs → Dirs

-- What stands at the path of an index path.
pub data Root : Type 0 where
  no_dir : Root
  unlistable_root : Root
  listed_root : List FileEntry → Dirs → Root

pub record IndexPath : Type 0 where
  pub path : FilePath
  pub recursive : Bool
  pub exclude_dirs : List Str
  pub projects : Bool

-- The files accepted, and the directories that could not be scanned.
pub record Walked : Type 0 where
  pub files : List FilePath
  pub unscanned : List FilePath

abbrev pub nothing : Walked
nothing = record { files = []; unscanned = [] }

abbrev pub joined : Walked → Walked → Walked
joined v w = record { files = v.files ++ w.files; unscanned = v.unscanned ++ w.unscanned }

-- The files of one directory.
unfoldable pub visit : Rules → FilePath → List FileEntry → Walked
unfolding accept_all
visit rules here fs = elim (accept_all rules here fs) [
  | none ↦ record { files = []; unscanned = here ∷ [] }
  | some paths ↦ record { files = paths; unscanned = [] }
]

-- The walk goes into the directory: it is kept in `dirnames` and is no link.
unfoldable pub enters : Rules → IndexPath → Str → Bool → Bool
unfolding matches_ignore_pattern
enters rules ip name is_link =
    not is_link
    && (ip.recursive
        && (not (contains name ip.exclude_dirs) && not (matches_ignore_pattern rules name)))

-- The loop over `os.walk`, below `here`.
unfoldable pub walk_dirs : Rules → IndexPath → FilePath → Dirs → Walked
unfolding visit enters
walk_dirs rules ip here no_more = nothing
walk_dirs rules ip here (unlistable name is_link rest) =
    let later = walk_dirs rules ip here rest in
    if enters rules ip name is_link
    then joined (record { files = []; unscanned = (here ++ name ∷ []) ∷ [] }) later
    else later
walk_dirs rules ip here (listed name is_link fs children rest) =
    let inner = walk_dirs rules ip (here ++ name ∷ []) children in
    let later = walk_dirs rules ip here rest in
    if enters rules ip name is_link
    then joined (visit rules (here ++ name ∷ []) fs) (joined inner later)
    else later

-- _walk_index_path
unfoldable pub walk_index_path : Rules → IndexPath → Root → Walked
unfolding walk_dirs
walk_index_path rules ip no_dir = nothing
walk_index_path rules ip unlistable_root = record { files = []; unscanned = ip.path ∷ [] }
walk_index_path rules ip (listed_root fs dirs) =
    joined (visit rules ip.path fs) (walk_dirs rules ip ip.path dirs)

-- An index path without a file counts as not scanned.
unfoldable pub with_empty_root : IndexPath → Walked → Walked
with_empty_root ip found =
    if is_empty found.files
    then record found { unscanned = found.unscanned ++ ip.path ∷ [] }
    else found

-- _collect_files, once the configuration is loaded
unfoldable pub collect_files : Rules → List (IndexPath × Root) → Walked
unfolding walk_index_path with_empty_root
collect_files rules [] = nothing
collect_files rules ((ip, root) ∷ paths) =
    joined (with_empty_root ip (walk_index_path rules ip root)) (collect_files rules paths)

-- _index_paths, of the index paths that are configured
unfoldable pub index_paths : FilePath → List IndexPath → List IndexPath
index_paths git_history_dir paths =
    if any (λ (ip : IndexPath). ip.projects) paths
    then paths
      ++ record { path = git_history_dir; recursive = false; exclude_dirs = []; projects = false }
        ∷ []
    else paths

-- The stale paths of `main`, after the files are collected.
unfoldable pub stale_after : Walked → Store → List Str
unfolding stale_paths path_of path_text is_under_any_root
stale_after found s =
    stale_paths (λ p. is_under_any_root (path_of p) found.unscanned) (map path_text found.files) s
