-- ===== src/Rag/Router.antt =====
-- src/local_graph_rag/rag/query_router.py: local or global retrieval for a question.
pub mod Choices
use local_graph_rag.Prelude.{
  ℕ, Bool, true, false, not, ◌&&◌, ◌||◌, Option, none, some, List, [], ◌∷◌, ◌++◌, any, contains,
  keep, map, is_empty, leb, nat_eq, list_eq, ◌==◌, if◌then◌else◌, flatten,
}
use local_graph_rag.Prelude.Text.{Str, codes, is_space, strip, strip_of, lower}

-- 'local' or 'global'
pub data Route : Type 0 where
  to_local to_global : Route

-- _GLOBAL_KEYWORDS
abbrev pub global_keywords : List Str
global_keywords =
    codes "theme"
    ∷ codes "themes"
    ∷ codes "overview"
    ∷ codes "summarize"
    ∷ codes "summary"
    ∷ codes "main"
    ∷ codes "overall"
    ∷ codes "across"
    ∷ codes "everything"
    ∷ codes "codebase"
    ∷ []

-- [a-z]
abbrev pub is_letter : ℕ → Bool
is_letter c = leb 97 c && leb c 122

-- The maximal runs of characters that pass a test (`findall` of a class with `+`), after the
-- characters `run` of one.
unfoldable pub runs_from : (ℕ → Bool) → Str → Str → List Str
runs_from p run [] = if is_empty run then [] else run ∷ []
runs_from p run (c ∷ cs) =
    let longer = runs_from p (run ++ c ∷ []) cs in
    let later = runs_from p [] cs in
    if p c then longer else if is_empty run then later else run ∷ later

-- _WORD_RE.findall(lowered)
unfoldable pub words_of : Str → List Str
unfolding runs_from
words_of s = runs_from is_letter [] s

-- _heuristic, on the lower-case question; `names_file` is the search for _FILENAME_RE
unfoldable pub heuristic : (Str → Bool) → Str → Route
unfolding words_of lower
heuristic names_file question =
    if names_file (lower question)
    then to_local
    else if any (λ w. contains w global_keywords) (words_of (lower question))
    then to_global
    else to_local

-- The text of _ROUTER_PROMPT before `{question}`.
abbrev pub router_prompt_head : Str
router_prompt_head =
    codes
      "Classify this question as either \"local\" or \"global\".\n\n- \"local\": asks about a specific entity, function, class, file, or project by name —\n  including \"summarize <a named file or project>\"\n- \"global\": asks for themes, summaries, or patterns across the WHOLE codebase, not\n  about one named file or project\n\nExamples:\nQuestion: Summarize vectorless-rag.md\nAnswer: local\n\nQuestion: What does GraphStore do?\nAnswer: local\n\nQuestion: Summarize the codebase\nAnswer: global\n\nQuestion: What are the main themes across the codebase?\nAnswer: global\n\nReply with exactly one word: local or global.\n\nQuestion: "

pub router_prompt : Str → Str
router_prompt question = router_prompt_head ++ (question ++ codes "\nAnswer:")

-- words[0], or "" if there is none: the words are the runs that hold no white space.
abbrev pub first_word : List Str → Str
first_word [] = []
first_word (w ∷ ws) = w

-- The characters that `strip(".,:;!\"'`")` takes off.
abbrev pub is_quote : ℕ → Bool
is_quote c = contains c (codes ".,:;!\"'`")

-- The answer that a response names.
unfoldable pub answer_of : Str → Option Route
unfolding runs_from lower strip strip_of is_space
answer_of response =
    let answer =
      strip_of is_quote
        (first_word (runs_from (λ c. not (is_space c)) [] (lower (strip response)))) in
    if answer == codes "local"
    then some to_local
    else if answer == codes "global"
    then some to_global
    else none

abbrev pub or_heuristic : Option Route → Route → Route
or_heuristic none fallback = fallback
or_heuristic (some route) fallback = route

-- What the model answered, if it did.
abbrev pub answered : Option Str → Option Route
answered none = none
answered (some response) = answer_of response

-- route_query; `generate` is none where it raises
unfoldable pub route_query : (Str → Bool) → (Str → Option Str) → Str → Bool → Route
unfolding heuristic router_prompt answer_of
route_query names_file generate question communities_available =
    if communities_available
    then or_heuristic (answered (generate (router_prompt question))) (heuristic names_file question)
    else to_local
