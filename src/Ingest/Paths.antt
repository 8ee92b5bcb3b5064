-- ===== src/Ingest/Paths.antt =====
-- src/local_graph_rag/common/paths.py, and what the code uses of pathlib: a path is the list of its parts.
use local_graph_rag.Prelude.{
  Bool, true, false, not, ◌&&◌, ◌||◌, Option, none, some, List, [], ◌∷◌, ◌++◌, map, keep, any,
  length, contains, is_empty, ltb, nat_eq, list_eq, ◌==◌, nat_eqb, if◌then◌else◌,
}
use local_graph_rag.Prelude.Text.{Str, codes, lower, starts_with, split_on, join}

abbrev pub FilePath : Type 0
FilePath = List Str

-- normalize_extensions
unfoldable pub normalize_extension : Str → Str
normalize_extension ext = if starts_with (codes ".") ext then lower ext else codes "." ++ lower ext

unfoldable pub normalize_extensions : List Str → List Str
unfolding normalize_extension
normalize_extensions extensions = map normalize_extension extensions

-- The part of a name from its last dot on, none if there is no dot.
unfoldable pub last_dot : Str → Option Str
last_dot [] = none
last_dot (c ∷ cs) = elim (last_dot cs) [
  | some found ↦ some found
  | none ↦ if nat_eqb c 46 then some (c ∷ cs) else none
]

-- The suffix of a path: of its last part, if the dot is neither first nor last.
unfoldable pub suffix_of : Str → Str
unfolding last_dot
suffix_of name = elim (last_dot name) [
  | none ↦ []
  | some found ↦ if ltb 1 (length found) && ltb (length found) (length name) then found else []
]

unfoldable pub name_of : FilePath → Str
name_of [] = []
name_of (part ∷ parts) = if is_empty parts then part else name_of parts

-- has_allowed_extension, for extensions that are normalized
unfoldable pub has_allowed_extension : FilePath → List Str → Bool
unfolding suffix_of name_of
has_allowed_extension path allowed = contains (lower (suffix_of (name_of path))) allowed

-- replace("\\", "/")
unfoldable pub with_slashes : Str → Str
with_slashes s = map (λ c. if nat_eqb c 92 then 47 else c) s

-- path.is_relative_to(root)
unfoldable pub is_relative_to : FilePath → FilePath → Bool
is_relative_to path [] = true
is_relative_to [] (r ∷ root) = false
is_relative_to (p ∷ path) (r ∷ root) = (p == r) && is_relative_to path root

unfoldable pub is_under_any_root : FilePath → List FilePath → Bool
unfolding is_relative_to
is_under_any_root path roots = any (λ root. is_relative_to path root) roots

-- Path(text) of a stored path: an absolute one.
unfoldable pub path_of : Str → FilePath
path_of text =
    keep (λ part. not (is_empty part) && not (part == codes ".")) (split_on (codes "/") text)

-- str(path)
unfoldable pub path_text : FilePath → Str
path_text path = codes "/" ++ join (codes "/") path

-- _pattern_matches
unfoldable pub pattern_matches : (Str → Str → Bool) → Str → List Str → Str → Str → Bool
unfolding with_slashes
pattern_matches fnmatch pattern parts path_text normalized_path_text =
    let normalized = with_slashes pattern in
    contains pattern parts
    || (any (λ part. fnmatch part pattern) parts
        || (fnmatch path_text pattern
            || (contains 47 normalized
                && (fnmatch normalized_path_text normalized
                    || (fnmatch normalized_path_text (codes "*/" ++ normalized)
                        || fnmatch normalized_path_text
                            (codes "*/" ++ (normalized ++ codes "/*")))))))
