-- ===== src/Rag/Scope.antt =====
-- src/local_graph_rag/rag/project_scope.py: the projects that a question names, and their paths.
pub mod Paths
use local_graph_rag.Prelude.{
  ℕ, zero, suc, ◌+◌, ◌-◌, Bool, true, false, not, ◌&&◌, ◌||◌, Option, none, some, List, [], ◌∷◌,
  ◌++◌, map, flatten, keep, any, length, take, drop, contains, is_empty, leb, ltb, nat_eq, list_eq,
  ◌==◌, nat_eqb, if◌then◌else◌,
}
use local_graph_rag.Prelude.Text.{Str, codes, lower, starts_with, occurs, join}
use local_graph_rag.Graph.Tables.{Store}
use local_graph_rag.Graph.Derived.{str_ltb}
use local_graph_rag.Graph.Reads.{sort_by, list_all_paths}
use local_graph_rag.Rag.Router.{runs_from}
use local_graph_rag.Ingest.Paths.{FilePath, path_of, name_of, suffix_of, is_relative_to}

-- [a-z0-9]
unfoldable pub is_word_char : ℕ → Bool
is_word_char c = (leb 97 c && leb c 122) || (leb 48 c && leb c 57)

-- _words
unfoldable pub words : Str → List Str
unfolding runs_from lower
words text = runs_from is_word_char [] (lower text)

abbrev pub cue_words : List Str
cue_words =
    codes "project"
    ∷ codes "projects"
    ∷ codes "repo"
    ∷ codes "repos"
    ∷ codes "repository"
    ∷ codes "codebase"
    ∷ []

-- [-_]?, before a word, which starts with neither
unfoldable pub skip_joint : Str → Str
skip_joint [] = []
skip_joint (c ∷ cs) = if nat_eqb c 45 || nat_eqb c 95 then cs else c ∷ cs

-- The words of a phrase with joints between them, at the start of a text: what stands after them.
unfoldable pub after_phrase : List Str → Str → Option Str
unfolding skip_joint starts_with
after_phrase [] s = some s
after_phrase (w ∷ ws) s =
    let rest =
      after_phrase ws (if is_empty ws then drop (length w) s else skip_joint (drop (length w) s)) in
    if starts_with w s then rest else none

-- (?![a-z0-9])
unfoldable pub ends_word : Option Str → Bool
unfolding is_word_char
ends_word none = false
ends_word (some []) = true
ends_word (some (c ∷ cs)) = not (is_word_char c)

-- The search for the phrase; the first argument is whether a word character stands before the text.
unfoldable pub spelled_from : Bool → List Str → Str → Bool
unfolding after_phrase ends_word
spelled_from inside phrase [] = not inside && ends_word (after_phrase phrase [])
spelled_from inside phrase (c ∷ cs) =
    let later = spelled_from (is_word_char c) phrase cs in
    (not inside && ends_word (after_phrase phrase (c ∷ cs))) || later

unfoldable pub spelled : Str → List Str → Bool
unfolding spelled_from
spelled question phrase = spelled_from false phrase (lower question)

unfoldable pub mentions : Str → List Str → Bool
unfolding spelled
mentions question phrase =
    spelled question phrase
    || occurs (codes " " ++ (join (codes " ") phrase ++ codes " "))
        (codes " " ++ (join (codes " ") (words question) ++ codes " "))

-- w[start:end] for a fixed start, with the ends from `start + 2` on, and for each start
unfoldable pub runs_at : ℕ → List Str → List (List Str)
runs_at zero w = []
runs_at (suc n) w = if ltb n 1 then [] else runs_at n w ++ take (suc n) w ∷ []

unfoldable pub runs_of : List Str → List (List Str)
unfolding runs_at
runs_of [] = []
runs_of (w ∷ ws) = runs_at (suc (length ws)) (w ∷ ws) ++ runs_of ws

-- owners[phrase], for distinct names
unfoldable pub owners : List Str → List Str → List Str
unfolding runs_of
owners names phrase = keep (λ name. contains phrase (runs_of (words name))) names

-- named
unfoldable pub is_named : Str → List Str → Str → Bool
unfolding owners mentions
is_named question names name =
    let w = words name in
    let parts = keep (λ phrase. owners names phrase == name ∷ []) (runs_of w) in
    (ltb 1 (length w) && spelled question w)
    || (any (λ cue. contains cue (words question)) cue_words
        && (not (is_empty w) && (mentions question w || any (mentions question) parts)))

-- match_projects, of distinct names
unfoldable pub match_projects : Str → List Str → List Str
unfolding is_named sort_by str_ltb
match_projects question names =
    sort_by (λ a b. not (str_ltb b a)) (keep (is_named question names) names)

-- projects and histories
abbrev pub Groups : Type 0
Groups = List (Str × List Str)

abbrev pub Histories : Type 0
Histories = List (Str × Str)

-- setdefault(name, []).append(p)
unfoldable pub add_path : Str → Str → Groups → Groups
add_path name p [] = (name, p ∷ []) ∷ []
add_path name p ((n, ps) ∷ groups) =
    let rest = add_path name p groups in
    if n == name then (n, ps ++ p ∷ []) ∷ groups else (n, ps) ∷ rest

unfoldable pub set_history : Str → Str → Histories → Histories
set_history stem p [] = (stem, p) ∷ []
set_history stem p ((s, q) ∷ histories) =
    let rest = set_history stem p histories in
    if s == stem then (s, p) ∷ histories else (s, q) ∷ rest

unfoldable pub paths_in : Str → Groups → List Str
paths_in name [] = []
paths_in name ((n, ps) ∷ groups) = let rest = paths_in name groups in if n == name then ps else rest

-- path.parent
unfoldable pub parent_of : FilePath → FilePath
parent_of [] = []
parent_of (part ∷ parts) = if is_empty parts then [] else part ∷ parent_of parts

-- path.stem
unfoldable pub stem_of : FilePath → Str
unfolding suffix_of name_of
stem_of path = let name = name_of path in take (length name - length (suffix_of name)) name

abbrev pub first_part : FilePath → Option Str
first_part [] = none
first_part (part ∷ parts) = some part

-- The name of the project of a path: the loop over the roots.
unfoldable pub project_of : List FilePath → FilePath → Option Str
unfolding is_relative_to
project_of [] path = none
project_of (root ∷ roots) path =
    let later = project_of roots path in
    let relative = drop (length root) path in
    if is_relative_to path root && ltb 1 (length relative) then first_part relative else later

-- The stem of a history document.
unfoldable pub history_stem : FilePath → FilePath → Option Str
unfolding parent_of stem_of
history_stem history_dir path = if parent_of path == history_dir then some (stem_of path) else none

-- The loop over the histories.
unfoldable pub add_histories : Histories → Groups → Groups
unfolding add_path
add_histories [] groups = groups
add_histories ((stem, p) ∷ histories) groups = add_histories histories (
    if contains stem (map (λ (g : Str × List Str). g.0) groups)
    then add_path stem p groups
    else groups)

-- The loop over the paths.
unfoldable pub group_from : FilePath → List FilePath → List Str → Groups → Histories → Groups
unfolding history_stem project_of add_path set_history add_histories
group_from history_dir roots [] groups histories = add_histories histories groups
group_from history_dir roots (p ∷ ps) groups histories =
    elim (history_stem history_dir (path_of p)) [
      | some stem ↦ group_from history_dir roots ps groups (set_history stem p histories)
      | none ↦ elim (project_of roots (path_of p)) [
        | some name ↦ group_from history_dir roots ps (add_path name p groups) histories
        | none ↦ group_from history_dir roots ps groups histories
      ]
    ]

-- _group_by_project
unfoldable pub group_by_project : FilePath → List FilePath → List Str → Groups
unfolding group_from
group_by_project history_dir roots paths = group_from history_dir roots paths [] []

-- project_paths
unfoldable pub project_paths : FilePath → List FilePath → Str → Store → Option (List Str)
unfolding group_by_project match_projects paths_in
project_paths history_dir roots question s =
    let groups = group_by_project history_dir roots (list_all_paths s) in
    let names = match_projects question (map (λ (g : Str × List Str). g.0) groups) in
    let found = flatten (map (λ name. paths_in name groups) names) in
    if is_empty roots then none else if is_empty found then none else some found
