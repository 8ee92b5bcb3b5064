-- ===== src/Ingest/GitHistory/Sync.antt =====
-- src/local_graph_rag/ingest/git_history.py: the synchronisation of the history documents with the
-- repositories under the index paths marked `projects`. A document is its stem and its text; `unlink`
-- does not fail, and a write that raises does so when it opens the file.
pub mod Growth
pub mod Removed
use local_graph_rag.Prelude.{
  Bool, true, false, not, ◌&&◌, ◌||◌, Option, none, some, List, [], ◌∷◌, keep, any, contains,
  is_empty, nat_eq, list_eq, ◌==◌, if◌then◌else◌,
}
use local_graph_rag.Prelude.Text.{Str}
use local_graph_rag.Graph.Summaries.{decimal}
use local_graph_rag.Ingest.GitHistory.{parse_log, render_history}
use local_graph_rag.Ingest.Files.{IndexPath, Rules, matches_ignore_pattern}

abbrev pub Docs : Type 0
Docs = List (Str × Str)

abbrev pub has_doc : Str → Docs → Bool
has_doc stem docs = any (λ (d : Str × Str). d.0 == stem) docs

-- (out_dir / f"{stem}.md").write_text(text)
unfoldable pub put_doc : Str → Str → Docs → Docs
put_doc stem text [] = (stem, text) ∷ []
put_doc stem text ((s, t) ∷ docs) =
    let rest = put_doc stem text docs in if s == stem then (stem, text) ∷ docs else (s, t) ∷ rest

-- What the run sees of one entry of a root: `has_git` is none where `exists` raises, `log` where git
-- fails or cannot be run.
pub record Child : Type 0 where
  pub name : Str
  pub has_git : Option Bool
  pub log : Option Str
  pub writes : Bool

-- A root with its entries; there are none if the listing fails.
pub record ProjectRoot : Type 0 where
  pub ip : IndexPath
  pub children : List Child

pub record Sync : Type 0 where
  pub docs : Docs
  pub present : List Str
  pub all_roots_listed : Bool
  pub raised : Bool

-- render_history(repo.name, parse_log(_git_log(repo))), none if it raises
unfoldable pub history_of : Child → Option Str
history_of repo = elim repo.log [
  | none ↦ none
  | some output ↦ elim (parse_log output) [
    | none ↦ none
    | some commits ↦ some (render_history decimal repo.name commits)
  ]
]

-- The text is written, or the write raises.
unfoldable pub write_history : Child → Sync → Sync
unfolding history_of put_doc
write_history repo s = elim (history_of repo) [
  | none ↦ s
  | some text ↦
      if repo.writes
      then record s { docs = put_doc repo.name text s.docs }
      else record s { raised = true }
]

-- The body of the loop over the entries of a root.
unfoldable pub sync_repo : Rules → IndexPath → Child → Sync → Sync
unfolding write_history matches_ignore_pattern
sync_repo rules ip repo s =
    if contains repo.name ip.exclude_dirs || matches_ignore_pattern rules repo.name
    then s
    else elim repo.has_git [
      | none ↦ record s { raised = true }
      | some false ↦ s
      | some true ↦ write_history repo (record s { present = repo.name ∷ s.present })
    ]

-- That loop; an exception ends it.
unfoldable pub sync_repos : Rules → IndexPath → List Child → Sync → Sync
unfolding sync_repo
sync_repos rules ip [] s = s
sync_repos rules ip (repo ∷ repos) s =
    if s.raised then s else sync_repos rules ip repos (sync_repo rules ip repo s)

-- The loop over the project roots.
unfoldable pub sync_roots : Rules → List ProjectRoot → Sync → Sync
unfolding sync_repos
sync_roots rules [] s = s
sync_roots rules (root ∷ roots) s =
    if s.raised
    then s
    else sync_roots rules roots (
        if is_empty root.children
        then record s { all_roots_listed = false }
        else sync_repos rules root.ip root.children s)

abbrev pub sync_start : Docs → Sync
sync_start docs = record { docs = docs; present = []; all_roots_listed = true; raised = false }

-- The documents of repositories that are gone are deleted, unless an exception came before.
unfoldable pub drop_gone : Sync → Sync
drop_gone s =
    if not s.raised && s.all_roots_listed
    then record s { docs = keep (λ (d : Str × Str). contains d.0 s.present) s.docs }
    else s

-- _sync, and sync_git_histories, which logs what it raises; `mkdir` may raise.
unfoldable pub sync_git_histories : Rules → Bool → List ProjectRoot → Docs → Sync
unfolding sync_roots drop_gone
sync_git_histories rules makes roots docs =
    let project_roots = keep (λ (r : ProjectRoot). r.ip.projects) roots in
    if is_empty project_roots
    then sync_start docs
    else if makes
    then drop_gone (sync_roots rules project_roots (sync_start docs))
    else record (sync_start docs) { raised = true }
