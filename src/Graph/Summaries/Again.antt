-- ===== src/Graph/Summaries/Again.antt =====
-- A second run over an unchanged graph.
use local_graph_rag.Prelude.{
  ℕ, ◌≡◌, refl, sym, ap, ap₂, ◌∙◌, ◌⊎◌, inl, inr, Bool, true, false, Bool-cases, Option, none, some,
  Option-cases, List, [], ◌∷◌, In, is_empty, contains, nat_eqb, ltb, nat_eq, list_eq,
}
use mathlib.Core.Path.{subst}
use local_graph_rag.Prelude.Text.{Str}
use local_graph_rag.Prelude.Members.{In-keep, contains-of_In}
use local_graph_rag.Graph.Tables.{Community, Store}
use local_graph_rag.Graph.Communities.{
  number_members, write_communities, get_entities_for_community, active_ids, drop_stale,
  delete_stale_communities,
}
use local_graph_rag.Graph.Communities.Detected.{
  Reassigned, unassigned, assign, unassigned-assign, unassigned_twice, detected, statement-some,
}
use local_graph_rag.Graph.Summaries.Run.{
  Services, Previous, by_hash, hash_of, Totals, Finished, summarize_each, insert_id, sorted_ids,
  previous_of, no_totals, summarize_detected, summarize_all_communities,
}
use local_graph_rag.Graph.Summaries.Reuse.{Has}
use local_graph_rag.Graph.Summaries.Settled.{hash-same, empty-same, Loop, IsSettled, each-IsSettled}
use local_graph_rag.Graph.Summaries.Asking.{IsDigest, each-asks_nothing}

In-of_insert_id : (i j : ℕ) (js : List ℕ) → In j (insert_id i js) → In j (i ∷ js)
unfolding insert_id
In-of_insert_id i j [] m = m
In-of_insert_id i j (k ∷ ks) m = elim (Bool-cases (ltb i k)) [
  | inl lt ↦ rw (lt, In) at m
  | inr ge ↦ elim (Bool-cases (nat_eqb i k)) [
    | inl eq ↦ inr (rw (ge, eq, In) at m)
    | inr gt ↦ later (In-of_insert_id i j ks) (rw (ge, gt, In) at m)
  ]
]
  where
    later : (In j (insert_id i ks) → In j (i ∷ ks)) → In j (k ∷ insert_id i ks) → In j (i ∷ k ∷ ks)
    later ih (inl e) = inr (inl e)
    later ih (inr m) = elim (ih m) [ inl e ↦ inl e | inr n ↦ inr (inr n) ]

In-of_sorted_ids : (is : List ℕ) (j : ℕ) → In j (sorted_ids is) → In j is
unfolding sorted_ids
In-of_sorted_ids [] j m = m
In-of_sorted_ids (i ∷ is) j m = elim (In-of_insert_id i j (sorted_ids is) m) [
  | inl e ↦ inl e
  | inr n ↦ inr (In-of_sorted_ids is j n)
]

dropped : (s t : Store) → delete_stale_communities s ≡ some t → drop_stale s ≡ t
unfolding delete_stale_communities
dropped s t e = statement-some drop_stale s t e

module _ (services : Services) where
  -- What `_cluster` finds depends on the relationships and the links of the chunks alone.
  abbrev pub IsDetermined : Type 0
  IsDetermined =
      (s t : Store)
      → s.relationships ≡ t.relationships
      → s.chunk_entities ≡ t.chunk_entities
      → services.cluster s ≡ services.cluster t

  -- The parts of a run that returns.
  record Parts (force : Bool) (s : Store) (f : Finished) : Type 0 where
    assigned : Store
    of_detect : write_communities (services.cluster s) s ≡ some assigned
    of_delete :
        drop_stale (summarize_detected services force (previous_of force s) assigned).store
        ≡ f.store
    of_totals : f.totals ≡ (summarize_detected services force (previous_of force s) assigned).totals
    of_asked : f.asked ≡ (summarize_detected services force (previous_of force s) assigned).asked

  parts :
      (force : Bool) (s : Store) (f : Finished)
      → summarize_all_communities services force s ≡ some f
      → Parts force s f
  unfolding summarize_all_communities
  parts force s f e = elim (Option-cases (write_communities (services.cluster s) s)) [
    | inl h ↦ absurd (cc (rw (h, summarize_all_communities) at e))
    | inr (t, h) ↦
        stored t h (Option-cases (delete_stale_communities (done t).store))
          (rw (h, summarize_all_communities) at e)
  ]
    where
      done : Store → Finished
      done t = summarize_detected services force (previous_of force s) t

      stored :
          (t : Store)
          → write_communities (services.cluster s) s ≡ some t
          → (delete_stale_communities (done t).store ≡ none)
            ⊎ ((u : Store) × (delete_stale_communities (done t).store ≡ some u))
          → (elim (delete_stale_communities (done t).store) [
            | none ↦ none
            | some u ↦ some (record (done t) { store = u })
          ])
            ≡ some f
          → Parts force s f
      stored t h (inl k) e = absurd (cc (rw k at e))
      stored t h (inr (u, k)) e =
          let own : record (done t) { store = u } ≡ f = cc (rw k at e) in
          record {
            assigned = t;
            of_detect = h;
            of_delete = dropped (done t).store u k ∙ ap (λ (x : Finished). x.store) own;
            of_totals = ap (λ (x : Finished). x.totals) (sym own);
            of_asked = ap (λ (x : Finished). x.asked) (sym own);
          }

  same_start : (force : Bool) (s : Store) → Loop services force s s
  same_start force s = record {
    entities_same = refl;
    relationships_same = refl;
    links_same = refl;
    ready = λ i h. h;
  }

  -- What the first run leaves, against the store `t` that its communities were written to.
  record Leaves (t u : Store) : Type 0 where
    same_entities : u.entities ≡ t.entities
    same_relationships : u.relationships ≡ t.relationships
    same_links : u.chunk_entities ≡ t.chunk_entities
    has_rows :
        (i : ℕ)
        → In i (sorted_ids (active_ids t.entities))
        → (is_empty (get_entities_for_community i t) ≡ true)
          ⊎ Has u.communities i (hash_of services i t)

  detected_settles :
      (force : Bool) (previous : Option Previous) (t : Store)
      → (force ≡ true) ⊎ (previous ≡ some (by_hash t.communities))
      → (summarize_detected services force previous t).totals.failed_count ≡ 0
      → Leaves t (drop_stale (summarize_detected services force previous t).store)
  unfolding summarize_detected drop_stale
  detected_settles force previous t trust zero_failed =
      let ids = sorted_ids (active_ids t.entities) in
      let (loop, settled) =
        each-IsSettled services force t previous ids no_totals t trust (same_start force t)
          zero_failed in
      record {
        same_entities = loop.entities_same;
        same_relationships = loop.relationships_same;
        same_links = loop.links_same;
        has_rows = λ i m. elim (settled i (inl m)) [
          | inl e ↦ inl e
          | inr has ↦ inr (
              row_stays (summarize_each services force previous ids no_totals t).store i
                (hash_of services i t) (In-of_sorted_ids (active_ids t.entities) i m)
                loop.entities_same has)
        ];
      }
    where
      row_stays :
          (d : Store) (i : ℕ) (hash : Str)
          → In i (active_ids t.entities)
          → d.entities ≡ t.entities
          → Has d.communities i hash
          → Has (drop_stale d).communities i hash
      row_stays d i hash active e (c, (m, (own, same))) = (
        c,
        (
          In-keep (λ (x : Community). contains x.id (active_ids d.entities)) d.communities c m
              (contains-of_In (active_ids d.entities) c.id
                (subst (λ k. In k (active_ids d.entities)) (sym own) (rw e active))),
          (own, same),
        ),
      )

  trusted :
      (force : Bool) (s t : Store)
      → t.communities ≡ s.communities
      → (force ≡ true) ⊎ (previous_of force s ≡ some (by_hash t.communities))
  unfolding previous_of
  trusted true s t e = inl refl
  trusted false s t e = inr (ap (λ (rows : List Community). some (by_hash rows)) (sym e))

  module _ (digest : IsDigest services) (determined : IsDetermined) where
    second-IsSettled :
        (s t u v : Store)
        → Reassigned (assign (number_members 0 (services.cluster s)) (unassigned s.entities)) s t
        → Leaves t u
        → Reassigned (assign (number_members 0 (services.cluster u)) (unassigned u.entities)) u v
        → (i : ℕ) → In i (sorted_ids (active_ids v.entities))
        → IsSettled services false v v i
    second-IsSettled s t u v first left second i m =
        elim (left.has_rows i (subst (λ es. In i (sorted_ids (active_ids es))) entities m)) [
          | inl e ↦ inl (empty-same i t v (sym entities) e)
          | inr has ↦ inr (
              subst (λ rows. Has rows i (hash_of services i v)) (sym second.as_communities)
                (subst (λ h. Has u.communities i h)
                  (hash-same services i t v (sym entities)
                    (sym (second.as_relationships ∙ left.same_relationships)))
                  has))
        ]
      where
        same_partition : services.cluster u ≡ services.cluster s
        same_partition =
            determined u s (left.same_relationships ∙ first.as_relationships)
              (left.same_links ∙ first.as_links)

        same_members : unassigned u.entities ≡ unassigned s.entities
        same_members =
            ap unassigned (left.same_entities ∙ first.as_entities)
            ∙ unassigned-assign (number_members 0 (services.cluster s)) (unassigned s.entities)
            ∙ unassigned_twice s.entities

        entities : v.entities ≡ t.entities
        entities =
            second.as_entities
            ∙ ap₂ (λ partition es. assign (number_members 0 partition) es) same_partition
                same_members
            ∙ sym first.as_entities

    asks_nothing :
        (u v : Store)
        → v.communities ≡ u.communities
        → ((i : ℕ) → In i (sorted_ids (active_ids v.entities)) → IsSettled services false v v i)
        → (summarize_detected services false (previous_of false u) v).asked ≡ []
    unfolding summarize_detected previous_of
    asks_nothing u v e settled =
        subst
          (λ (rows : List Community).
            (summarize_each services false (some (by_hash rows))
              (sorted_ids (active_ids v.entities)) no_totals v).asked
            ≡ [])
          e
          (each-asks_nothing services v digest (sorted_ids (active_ids v.entities)) no_totals v
            (same_start false v) settled)

    -- If the partition depends on the relationships and the links of the chunks alone, and no digest is
    -- empty, then a run that is not forced, and that follows a run in which no community failed, asks
    -- the model nothing, also where the first run was forced.
    pub second_run-asks_nothing :
        (force : Bool) (s : Store) (first second : Finished)
        → summarize_all_communities services force s ≡ some first
        → first.totals.failed_count ≡ 0
        → summarize_all_communities services false first.store ≡ some second
        → second.asked ≡ []
    second_run-asks_nothing force s first second e zero_failed f =
        let p = parts force s first e in
        let q = parts false first.store second f in
        let r = detected (services.cluster s) s p.assigned p.of_detect in
        let left =
          detected_settles force (previous_of force s) p.assigned
            (trusted force s p.assigned r.as_communities)
            (ap (λ (c : Totals). c.failed_count) (sym p.of_totals) ∙ zero_failed) in
        let r' = detected (services.cluster first.store) first.store q.assigned q.of_detect in
        let settled =
          second-IsSettled s p.assigned first.store q.assigned r
            (subst (λ u. Leaves p.assigned u) p.of_delete left) r' in
        q.of_asked ∙ asks_nothing first.store q.assigned r'.as_communities settled
