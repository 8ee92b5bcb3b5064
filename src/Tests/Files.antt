-- ===== src/Tests/Files.antt =====
-- The files of a run, the history documents and the scope of a question on small inputs.
use local_graph_rag.Prelude.{
  All, ◌≡◌, ◌↔◌, refl, ap, inl, true, false, some, none, List, [], ◌∷◌, map, flatten, In, contains,
  nat_eq, list_eq,
}
use local_graph_rag.Prelude.Text.{
  Str, codes, lower, lower_code, starts_with, split_on, split_from, join, occurs,
}
use local_graph_rag.Graph.Tables.{Store, Fingerprint}
use local_graph_rag.Graph.Derived.{str_ltb}
use local_graph_rag.Graph.Reads.{list_all_paths, dedupe, sort_by, insert_by}
use local_graph_rag.Ingest.Pipeline.{stale_paths}
use local_graph_rag.Ingest.Paths.{
  path_of, path_text, is_relative_to, is_under_any_root, pattern_matches, with_slashes,
  has_allowed_extension, suffix_of, last_dot, name_of,
}
use local_graph_rag.Ingest.Files.{
  Rules, FileEntry, unlistable, no_more, listed_root, Root, IndexPath, collect_files,
  walk_index_path, with_empty_root, walk_dirs, visit, enters, accept_all, accept,
  is_safe_indexable_file, matches_ignore_pattern, is_within_size_limit, stale_after,
}
use local_graph_rag.Ingest.Files.Hiding.{below, not_listed}
use local_graph_rag.Ingest.Files.Hidden.{OutOfSight, out_of_sight, stale_after-exact}
use local_graph_rag.Ingest.Files.Collected.{Found, collect_files-exact}
use local_graph_rag.Ingest.GitHistory.Sync.{
  Docs, has_doc, ProjectRoot, history_of, write_history, sync_repo, sync_repos, sync_roots,
  drop_gone, sync_git_histories,
}
use local_graph_rag.Ingest.GitHistory.Sync.Removed.{IsWithout, sync_git_histories-IsWithout}
use local_graph_rag.Rag.Router.{runs_from}
use local_graph_rag.Rag.Scope.{
  project_paths, group_by_project, group_from, history_stem, project_of, add_path, add_histories,
  parent_of, match_projects, is_named, owners, mentions, spelled, spelled_from, after_phrase,
  ends_word, skip_joint, is_word_char, words, runs_of, runs_at, paths_in,
}
use local_graph_rag.Rag.Scope.Paths.{Belongs, project_names, project_paths-Belongs}

abbrev rules : Rules
rules = record {
  fnmatch = λ text pattern. false;
  ignore = codes "skip" ∷ [];
  docs_roots = (codes "r" ∷ []) ∷ [];
  allowed = codes ".md" ∷ [];
  max_file_bytes = 9;
}

abbrev note : FileEntry
note = record {
  name = codes "a.md";
  is_symlink = some false;
  resolves = true;
  is_file = true;
  size = some 9;
}

abbrev root_path : IndexPath
root_path = record { path = codes "r" ∷ []; recursive = true; exclude_dirs = []; projects = true }

-- One file, and a directory that cannot be listed.
abbrev root : Root
root = listed_root (note ∷ []) (unlistable (codes "off") false no_more)

abbrev paths : List (IndexPath × Root)
paths = (root_path, root) ∷ []

abbrev fingerprint : Str → Fingerprint
fingerprint path = record { filepath = path; sha256 = codes "h" }

abbrev store : Store
store = record {
  entities = [];
  relationships = [];
  chunks = [];
  chunk_entities = [];
  entity_mentions = [];
  communities = [];
  fingerprints =
      fingerprint (codes "/r/a.md")
      ∷ fingerprint (codes "/r/off/b.md")
      ∷ fingerprint (codes "/r/gone.md")
      ∷ [];
  extraction_cache = [];
}

one_stale : stale_after (collect_files rules paths) store ≡ codes "/r/gone.md" ∷ []
unfolding stale_after stale_paths collect_files walk_index_path with_empty_root walk_dirs visit
    enters accept_all accept is_safe_indexable_file matches_ignore_pattern pattern_matches
    with_slashes has_allowed_extension suffix_of last_dot name_of is_within_size_limit
    is_under_any_root is_relative_to path_of path_text list_all_paths dedupe sort_by insert_by
    str_ltb lower lower_code starts_with split_on split_from join
one_stale = refl

off_hidden : OutOfSight rules paths (path_of (codes "/r/off/b.md"))
unfolding enters matches_ignore_pattern pattern_matches with_slashes path_of split_on split_from
    starts_with is_relative_to
off_hidden =
    out_of_sight root_path root (codes "r" ∷ codes "off" ∷ []) (inl refl)
      (below (note ∷ []) (unlistable (codes "off") false no_more) (codes "r" ∷ codes "off" ∷ [])
        (not_listed (codes "r" ∷ []) (codes "off") false no_more refl))
      refl

stale_after-exact_example :
    In (codes "/r/gone.md") (stale_after (collect_files rules paths) store) ↔ (
      In (codes "/r/gone.md") (list_all_paths store)
      × ((contains (codes "/r/gone.md") (map path_text (collect_files rules paths).files) ≡ false)
          × ¬ (OutOfSight rules paths (path_of (codes "/r/gone.md")))))
stale_after-exact_example = stale_after-exact rules paths store (codes "/r/gone.md")

collect_files-exact_example :
    In (codes "r" ∷ codes "a.md" ∷ []) (collect_files rules paths).files ↔ (
      (ip : IndexPath) × ((root : Root) × (In (ip, root) paths
          × Found rules ip root (codes "r" ∷ codes "a.md" ∷ []))))
collect_files-exact_example = collect_files-exact rules paths (codes "r" ∷ codes "a.md" ∷ [])

-- A root with one repository, whose git fails, and a document of another.
abbrev project_root : ProjectRoot
project_root = record {
  ip = root_path;
  children = record { name = codes "kept"; has_git = some true; log = none; writes = true } ∷ [];
}

abbrev docs : Docs
docs = (codes "kept", codes "k") ∷ (codes "gone", codes "g") ∷ []

one_kept :
    (sync_git_histories rules true (project_root ∷ []) docs).docs ≡ (codes "kept", codes "k") ∷ []
unfolding sync_git_histories sync_roots sync_repos sync_repo write_history history_of drop_gone
    matches_ignore_pattern pattern_matches with_slashes
one_kept = refl

sync_git_histories-IsWithout_example : IsWithout rules (codes "gone") project_root
sync_git_histories-IsWithout_example =
    sync_git_histories-IsWithout rules true (project_root ∷ []) docs (codes "gone") refl
      (ap (has_doc (codes "gone")) one_kept) project_root (inl refl) refl

abbrev two_projects : Store
two_projects = record store {
  fingerprints =
      fingerprint (codes "/r/graph-rag/x.py")
      ∷ fingerprint (codes "/r/other/y.py")
      ∷ fingerprint (codes "/h/graph-rag.md")
      ∷ [];
}

abbrev asked : Str
asked = codes "Where does GraphRag start?"

scoped :
    project_paths (codes "h" ∷ []) ((codes "r" ∷ []) ∷ []) asked two_projects
    ≡ some (codes "/r/graph-rag/x.py" ∷ codes "/h/graph-rag.md" ∷ [])
unfolding project_paths group_by_project group_from history_stem project_of add_path add_histories
    parent_of match_projects is_named owners mentions spelled spelled_from after_phrase ends_word
    skip_joint is_word_char words runs_of runs_at paths_in runs_from sort_by insert_by str_ltb lower
    lower_code starts_with split_on split_from join occurs path_of is_relative_to list_all_paths
    dedupe flatten suffix_of last_dot name_of
scoped = refl

project_paths-Belongs_example :
    (false ≡ false)
    × All
        (λ p.
          (name : Str) × (In name
              (project_names (codes "h" ∷ []) ((codes "r" ∷ []) ∷ []) two_projects)
            × ((is_named asked
                    (project_names (codes "h" ∷ []) ((codes "r" ∷ []) ∷ []) two_projects)
                    name
                  ≡ true)
                × Belongs
                    (codes "h" ∷ [])
                    ((codes "r" ∷ []) ∷ [])
                    (list_all_paths two_projects)
                    name
                    p)))
        (codes "/r/graph-rag/x.py" ∷ codes "/h/graph-rag.md" ∷ [])
project_paths-Belongs_example =
    project_paths-Belongs (codes "h" ∷ []) ((codes "r" ∷ []) ∷ []) asked two_projects
      (codes "/r/graph-rag/x.py" ∷ codes "/h/graph-rag.md" ∷ []) scoped
