-- ===== src/Ingest/GitHistory.antt =====
-- src/local_graph_rag/ingest/git_history.py: the log of git as commits, and their Markdown document.
pub mod Names
pub mod Parsing
pub mod Indented
pub mod Sync
use local_graph_rag.Prelude.{
  ℕ, zero, suc, ◌+◌, ◌-◌, Bool, true, false, not, Option, none, some, List, [], ◌∷◌, ◌++◌, map,
  flatten, keep, take, drop, length, is_empty, if◌then◌else◌, nat_eqb,
}
use local_graph_rag.Prelude.Text.{Str, codes, strip, split_on, splitlines, join}
use local_graph_rag.Graph.Tables.{◌>>=◌}

pub record Commit : Type 0 where
  pub short_hash : Str
  pub date : Str
  pub subject : Str
  pub body : Str
  pub files : List Str

-- _RECORD_SEP and _FIELD_SEP
abbrev pub record_sep : ℕ
record_sep = 30

abbrev pub field_sep : ℕ
field_sep = 31

-- The commit of five fields.
pub commit_of : Str → Str → Str → Str → Str → Commit
commit_of short_hash date subject body files = record {
  short_hash = short_hash;
  date = date;
  subject = strip subject;
  body = strip body;
  files = keep (λ line. not (is_empty (strip line))) (splitlines false files);
}

-- The unpacking of a record; another number of fields raises ValueError.
pub commit_of_fields : List Str → Option Commit
unfolding commit_of
commit_of_fields (h ∷ d ∷ s ∷ b ∷ f ∷ []) = some (commit_of h d s b f)
commit_of_fields _ = none

-- The loop of `parse_log`.
pub parse_records : List Str → Option (List Commit)
unfolding commit_of_fields
parse_records [] = some []
parse_records (r ∷ rs) = do
  commit ← commit_of_fields (split_on (field_sep ∷ []) r)
  commits ← parse_records rs
  some (commit ∷ commits)

pub parse_log : Str → Option (List Commit)
unfolding parse_records
parse_log output = parse_records (drop 1 (split_on (record_sep ∷ []) output))

-- _RECENT_COMMITS and _MAX_FILES_PER_COMMIT
abbrev pub recent_commits : ℕ
recent_commits = 15

abbrev pub max_files_per_commit : ℕ
max_files_per_commit = 15

-- The lines of a body: indented, and the blank ones empty.
pub indent : Str → Str
indent line = if is_empty (strip line) then [] else codes "    " ++ line

pub body_lines : Str → List Str
unfolding indent
body_lines body = if is_empty body then [] else [] ∷ map indent (splitlines false body)

-- The line of the files; `show` prints a number.
pub file_lines : (ℕ → Str) → List Str → List Str
file_lines show files =
    let shown = take max_files_per_commit files in
    let more = length files - length shown in
    if is_empty files
    then []
    else []
      ∷ flatten (
          codes "Files: "
          ∷ join (codes ", ") shown
          ∷ (if nat_eqb more 0 then [] else flatten (codes " (+" ∷ show more ∷ codes " more)" ∷ []))
          ∷ [])
      ∷ []

pub commit_lines : (ℕ → Str) → Str → Commit → List Str
unfolding body_lines file_lines
commit_lines show repo c =
    []
    ∷ flatten (
        codes "## "
        ∷ repo
        ∷ codes " commit "
        ∷ c.short_hash
        ∷ codes " ("
        ∷ c.date
        ∷ codes "): "
        ∷ c.subject
        ∷ [])
    ∷ (body_lines c.body ++ file_lines show c.files)

pub recent_line : Commit → Str
recent_line c =
    flatten (codes "- " ∷ c.date ∷ codes " " ∷ c.short_hash ∷ codes " " ∷ c.subject ∷ [])

-- render_history
pub render_history : (ℕ → Str) → Str → List Commit → Str
unfolding commit_lines recent_line
render_history show repo commits =
    join (codes "\n") (
      (codes "# Git history of " ++ repo)
      ∷ []
      ∷ flatten (codes "## Recent changes to " ∷ repo ∷ codes " (newest first)" ∷ [])
      ∷ []
      ∷ (map recent_line (take recent_commits commits)
          ++ flatten (map (commit_lines show repo) commits)))
    ++ codes "\n"
