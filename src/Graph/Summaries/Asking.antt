-- ===== src/Graph/Summaries/Asking.antt =====
-- A community that a run has settled makes the next run ask nothing.
use local_graph_rag.Prelude.{
  ℕ, ◌≡◌, refl, sym, ap, ap₂, ◌∙◌, inl, inr, true, false, Bool-cases, Option, none, some, List, [],
  ◌∷◌, ◌++◌, In, is_empty, nat_eqb, nat_eq, list_eq,
}
use local_graph_rag.Prelude.Text.{Str}
use local_graph_rag.Graph.Tables.{Community, Store}
use local_graph_rag.Graph.Communities.{get_entities_for_community, upsert_community}
use local_graph_rag.Graph.Summaries.{compute_member_hash}
use local_graph_rag.Graph.Summaries.Run.{
  Services, Previous, skipped, by_hash, saved, hash_of, reuse_summary, summarize_members,
  summarize_community, Totals, summarize_each, count_result,
}
use local_graph_rag.Graph.Summaries.Reuse.{by_hash-finds, community-Did}
use local_graph_rag.Graph.Summaries.Settled.{hash-same, empty-same, Loop, IsSettled, Did-Loop}

module _ (services : Services) where
  -- A digest is a text that is not empty.
  abbrev pub IsDigest : Type 0
  IsDigest = (text : Str) → is_empty (services.sha256 text) ≡ false

  reuse-asks_nothing :
      (i : ℕ) (s : Store) (prior : Community) → (reuse_summary services i s prior).asked ≡ []
  unfolding reuse_summary
  reuse-asks_nothing i s prior = elim (Bool-cases (nat_eqb prior.id i)) [
    | inl own ↦ rw own refl
    | inr other ↦ rw other (saved-asks (upsert_community _ s))
  ]
    where
      saved-asks : (o : Option Store) → (saved skipped s o).asked ≡ []
      saved-asks none = unfold saved in refl
      saved-asks (some t) = unfold saved in refl

  found-asks_nothing :
      (rows : Previous) (i : ℕ) (s : Store) (prior : Community)
      → rows (hash_of services i s) ≡ some prior
      → (summarize_community services false (some rows) i s).asked ≡ []
  unfolding summarize_community summarize_members
  found-asks_nothing rows i s prior e =
      elim (Bool-cases (is_empty (get_entities_for_community i s))) [
        | inl h ↦ rw h refl
        | inr h ↦ rw (h, summarize_members, e) (reuse-asks_nothing i s prior)
      ]

  empty-asks_nothing :
      (rows : Previous) (i : ℕ) (s : Store)
      → is_empty (get_entities_for_community i s) ≡ true
      → (summarize_community services false (some rows) i s).asked ≡ []
  unfolding summarize_community
  empty-asks_nothing rows i s e = rw e refl

  module _ (base : Store) (digest : IsDigest) where
    settled-asks_nothing :
        (i : ℕ) (s : Store)
        → Loop services false base s
        → IsSettled services false base base i
        → (summarize_community services false (some (by_hash base.communities)) i s).asked ≡ []
    settled-asks_nothing i s loop (inl e) =
        empty-asks_nothing (by_hash base.communities) i s
          (empty-same i base s (sym loop.entities_same) e)
    settled-asks_nothing i s loop (inr has) =
        let (prior, there) =
          by_hash-finds base.communities i (hash_of services i base)
            (unfold hash_of compute_member_hash in digest _) has in
        found-asks_nothing (by_hash base.communities) i s prior (
          ap (by_hash base.communities)
            (hash-same services i s base loop.entities_same loop.relationships_same)
          ∙ there)

    pub each-asks_nothing :
        (ids : List ℕ) (totals : Totals) (s : Store)
        → Loop services false base s
        → ((i : ℕ) → In i ids → IsSettled services false base base i)
        → (summarize_each services false (some (by_hash base.communities)) ids totals s).asked ≡ []
    unfolding summarize_each
    each-asks_nothing [] totals s loop settled = refl
    each-asks_nothing (i ∷ is) totals s loop settled =
        let r = summarize_community services false (some (by_hash base.communities)) i s in
        ap₂ ◌++◌ (settled-asks_nothing i s loop (settled i (inl refl))) (
          each-asks_nothing is (count_result r.result totals) r.store
            (Did-Loop services false base (by_hash base.communities) i s r loop
              (community-Did services false (by_hash base.communities) i s))
            (λ j m. settled j (inr m)))
