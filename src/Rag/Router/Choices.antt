-- ===== src/Rag/Router/Choices.antt =====
-- When a question is answered from the whole graph.
use local_graph_rag.Prelude.{
  Bool, true, false, ◌≡◌, refl, ap, Option, none, some, any, contains, In, nat_eq, list_eq,
  Bool-cases, inl, inr, ◌⊎◌,
}
use local_graph_rag.Prelude.Text.{Str, lower}
use local_graph_rag.Prelude.Members.{In-of_any, In-of_contains}
use local_graph_rag.Rag.Router.{
  Route, to_global, global_keywords, words_of, heuristic, router_prompt, or_heuristic, answered,
  route_query,
}

-- What is read in order to answer global.
pub record IsGlobal (names_file : Str → Bool) (generate : Str → Option Str) (question : Str)
    : Type 0 where
  pub reason :
      (answered (generate (router_prompt question)) ≡ some to_global)
      ⊎ ((answered (generate (router_prompt question)) ≡ none)
          × ((names_file (lower question) ≡ false)
              × ((w : Str) × (In w (words_of (lower question)) × In w global_keywords))))

heuristic-global :
    (names_file : Str → Bool) (question : Str)
    → heuristic names_file question ≡ to_global
    → (names_file (lower question) ≡ false)
      × ((w : Str) × (In w (words_of (lower question)) × In w global_keywords))
unfolding heuristic
heuristic-global names_file question h = elim (Bool-cases (names_file (lower question))) [
  | inl e ↦ absurd (cc (rw (e, heuristic) at h))
  | inr e ↦ elim (Bool-cases (any (λ w. contains w global_keywords) (words_of (lower question)))) [
    | inl e' ↦
        let (w, m, k) =
          In-of_any (λ (v : Str). contains v global_keywords) (words_of (lower question)) e' in
        (e, (w, (m, In-of_contains global_keywords w k)))
    | inr e' ↦ absurd (cc (rw (e, e', heuristic) at h))
  ]
]

route-reason :
    (names_file : Str → Bool) (question : Str) (o : Option Route)
    → or_heuristic o (heuristic names_file question) ≡ to_global
    → (o ≡ some to_global)
      ⊎ ((o ≡ none)
          × ((names_file (lower question) ≡ false)
              × ((w : Str) × (In w (words_of (lower question)) × In w global_keywords))))
route-reason names_file question none h = inr (refl, heuristic-global names_file question h)
route-reason names_file question (some route) h = inl (ap some h)

-- A question is routed to global only if there are community summaries, and the model answered so,
-- or it gave no usable answer and the question names no file and has one of the global keywords.
pub route-IsGlobal :
    (names_file : Str → Bool) (generate : Str → Option Str) (question : Str)
    (communities_available : Bool)
    → route_query names_file generate question communities_available ≡ to_global
    → (communities_available ≡ true) × IsGlobal names_file generate question
unfolding route_query
route-IsGlobal names_file generate question true h = (
  refl,
  record {
    reason = route-reason names_file question (answered (generate (router_prompt question))) h;
  },
)
route-IsGlobal names_file generate question false h = absurd (cc h)
