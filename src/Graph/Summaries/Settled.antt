-- ===== src/Graph/Summaries/Settled.antt =====
-- After a run, each community whose summary did not fail has a row with its hash.
use mathlib.Core.Path.{subst}
use local_graph_rag.Prelude.{
  ℕ, ◌≤◌, ◌≡◌, ◌≢◌, refl, sym, ap, ap₂, ◌∙◌, ◌⊎◌, inl, inr, Bool, true, not, Bool-cases, Option,
  none, some, List, [], ◌∷◌, In, is_empty, nat_eqb, nat_eqb_iff, arith, In-append_left,
  In-append_right,
}
use local_graph_rag.Prelude.Text.{Str}
use local_graph_rag.Prelude.Members.{In-keep}
use local_graph_rag.Graph.Tables.{Entity, Relationship, Community, Store}
use local_graph_rag.Graph.Communities.{
  get_entities_for_community, get_relationships_for_community, replace_community,
}
use local_graph_rag.Graph.Summaries.Run.{
  Services, Previous, by_hash, Result, summarized, skipped, failed, Round, hash_of, row_of,
  summarize_community, Totals, count_result, summarize_each,
}
use local_graph_rag.Graph.Summaries.Reuse.{
  Has, by_hash_sound, Did, gave_up, empty, wrote, found, community-Did,
}

pub hash-same :
    (services : Services) (i : ℕ) (s t : Store)
    → s.entities ≡ t.entities
    → s.relationships ≡ t.relationships
    → hash_of services i s ≡ hash_of services i t
unfolding hash_of get_entities_for_community get_relationships_for_community
hash-same services i s t e r =
    ap₂
      (λ (es : List Entity) (rs : List Relationship).
        hash_of services i (record s { entities = es; relationships = rs }))
      e r

pub empty-same :
    (i : ℕ) (s t : Store)
    → s.entities ≡ t.entities
    → is_empty (get_entities_for_community i s) ≡ true
    → is_empty (get_entities_for_community i t) ≡ true
unfolding get_entities_for_community
empty-same i s t e h = rw e at h

pub Has-replace :
    (s : Store) (c : Community) (i : ℕ) (hash : Str)
    → (c.id ≡ i → c.member_hash ≡ hash)
    → Has s.communities i hash
    → Has (replace_community c s).communities i hash
unfolding replace_community
Has-replace s c i hash agrees (d, (m, (own, same))) = elim (Bool-cases (nat_eqb d.id c.id)) [
  | inl e ↦
      let there : c.id ≡ i = sym ((nat_eqb_iff d.id c.id).0 e) ∙ own in
      (c, (In-append_right c _ (c ∷ []) (inl refl), (there, agrees there)))
  | inr e ↦ (
    d,
    (
      In-append_left d _ (c ∷ [])
          (In-keep (λ (x : Community). not (nat_eqb x.id c.id)) s.communities d m (ap not e)),
      (own, same),
    ),
  )
]

Has-new : (s : Store) (c : Community) → Has (replace_community c s).communities c.id c.member_hash
unfolding replace_community
Has-new s c = (c, (In-append_right c _ (c ∷ []) (inl refl), (refl, refl)))

module _ (services : Services) (force : Bool) (base : Store) where
  abbrev hash : ℕ → Str
  hash i = hash_of services i base

  -- The store in the loop: the graph is that of the start, and a row that had the hash of its
  -- community still has it.
  pub record Loop (s : Store) : Type 0 where
    pub entities_same : s.entities ≡ base.entities
    pub relationships_same : s.relationships ≡ base.relationships
    pub links_same : s.chunk_entities ≡ base.chunk_entities
    pub ready : (i : ℕ) → Has base.communities i (hash i) → Has s.communities i (hash i)

  abbrev pub IsSettled : Store → ℕ → Type 0
  IsSettled s i =
      (is_empty (get_entities_for_community i base) ≡ true) ⊎ Has s.communities i (hash i)

  -- The row that is written for `i` in `s`, for community `j`.
  Has-written :
      (s : Store) (i j : ℕ) (summary blob : Str)
      → Loop s
      → Has s.communities j (hash j)
      → Has (replace_community (row_of services i s summary blob) s).communities j (hash j)
  Has-written s i j summary blob loop has =
      Has-replace s (row_of services i s summary blob) j (hash j)
        (λ e. hash-same services i s base loop.entities_same loop.relationships_same ∙ ap hash e)
        has

  Did-keeps :
      (rows : Previous) (i : ℕ) (s : Store) (r : Round)
      → Loop s
      → Did services force rows i s r
      → (j : ℕ) → Has s.communities j (hash j)
      → Has r.store.communities j (hash j)
  Did-keeps rows i s r loop (gave_up f e) j has = rw e has
  Did-keeps rows i s r loop (empty f e) j has = rw e has
  Did-keeps rows i s r loop (wrote summary blob e) j has =
      rw e (Has-written s i j summary blob loop has)
  Did-keeps rows i s r loop (found prior f p o e) j has = rw e has

  pub Did-Loop :
      (rows : Previous) (i : ℕ) (s : Store) (r : Round)
      → Loop s
      → Did services force rows i s r
      → Loop r.store
  Did-Loop rows i s r loop did = record {
    entities_same = same_entities did;
    relationships_same = same_relationships did;
    links_same = same_links did;
    ready = λ j has. Did-keeps rows i s r loop did j (loop.ready j has);
  }
    where
      same_entities : Did services force rows i s r → r.store.entities ≡ base.entities
      same_entities (gave_up f e) = ap (λ (t : Store). t.entities) e ∙ loop.entities_same
      same_entities (empty f e) = ap (λ (t : Store). t.entities) e ∙ loop.entities_same
      same_entities (wrote summary blob e) =
          ap (λ (t : Store). t.entities) e ∙ (unfold replace_community in loop.entities_same)
      same_entities (found prior f p o e) = ap (λ (t : Store). t.entities) e ∙ loop.entities_same

      same_relationships :
          Did services force rows i s r → r.store.relationships ≡ base.relationships
      same_relationships (gave_up f e) =
          ap (λ (t : Store). t.relationships) e ∙ loop.relationships_same
      same_relationships (empty f e) =
          ap (λ (t : Store). t.relationships) e ∙ loop.relationships_same
      same_relationships (wrote summary blob e) =
          ap (λ (t : Store). t.relationships) e
          ∙ (unfold replace_community in loop.relationships_same)
      same_relationships (found prior f p o e) =
          ap (λ (t : Store). t.relationships) e ∙ loop.relationships_same

      same_links : Did services force rows i s r → r.store.chunk_entities ≡ base.chunk_entities
      same_links (gave_up f e) = ap (λ (t : Store). t.chunk_entities) e ∙ loop.links_same
      same_links (empty f e) = ap (λ (t : Store). t.chunk_entities) e ∙ loop.links_same
      same_links (wrote summary blob e) =
          ap (λ (t : Store). t.chunk_entities) e ∙ (unfold replace_community in loop.links_same)
      same_links (found prior f p o e) = ap (λ (t : Store). t.chunk_entities) e ∙ loop.links_same

  written :
      (i : ℕ) (s : Store) (summary blob : Str)
      → Loop s
      → Has (replace_community (row_of services i s summary blob) s).communities i (hash i)
  written i s summary blob loop =
      let (c, (m, (own, same))) = Has-new s (row_of services i s summary blob) in
      (c, (m, (own, same ∙ hash-same services i s base loop.entities_same loop.relationships_same)))

  was_there :
      (s : Store) (i : ℕ) (prior : Community) (rows : Previous)
      → rows ≡ by_hash base.communities
      → Loop s
      → rows (hash_of services i s) ≡ some prior
      → prior.id ≡ i
      → Has base.communities i (hash i)
  was_there s i prior rows t loop p o =
      let same = hash-same services i s base loop.entities_same loop.relationships_same in
      let (m, h) = by_hash_sound base.communities (hash_of services i s) prior (rw t at p) in
      (prior, (m, (o, h ∙ same)))

  Did-settles :
      (rows : Previous) (i : ℕ) (s : Store) (r : Round)
      → (force ≡ true) ⊎ (rows ≡ by_hash base.communities)
      → Loop s
      → r.result ≢ failed
      → Did services force rows i s r
      → IsSettled r.store i
  Did-settles rows i s r trust loop ok_ (gave_up f e) = absurd (ok_ f)
  Did-settles rows i s r trust loop ok_ (empty f e) = inl (empty-same i s base loop.entities_same f)
  Did-settles rows i s r trust loop ok_ (wrote summary blob e) =
      inr (rw e (written i s summary blob loop))
  Did-settles rows i s r (inl t) loop ok_ (found prior f p o e) = absurd (cc (sym t ∙ f))
  Did-settles rows i s r (inr t) loop ok_ (found prior f p o e) =
      inr (rw e (loop.ready i (was_there s i prior rows t loop p o)))

  -- What one community gives, whatever `previous` is.
  community-cases :
      (previous : Option Previous) (i : ℕ) (s : Store)
      → (force ≡ true) ⊎ (previous ≡ some (by_hash base.communities))
      → (rows : Previous) × (((force ≡ true) ⊎ (rows ≡ by_hash base.communities))
          × Did services force rows i s (summarize_community services force previous i s))
  community-cases none i s (inl f) = (
    by_hash s.communities,
    (inl f, unfold summarize_community in community-Did services force (by_hash s.communities) i s),
  )
  community-cases none i s (inr e) = absurd (cc e)
  community-cases (some rows) i s (inl f) = (rows, (inl f, community-Did services force rows i s))
  community-cases (some rows) i s (inr e) =
      (rows, (inr (cc e), community-Did services force rows i s))

  failed_mono :
      (previous : Option Previous) (ids : List ℕ) (totals : Totals) (s : Store)
      → totals.failed_count
        ≤ (summarize_each services force previous ids totals s).totals.failed_count
  unfolding summarize_each
  failed_mono previous [] totals s = omega arith
  failed_mono previous (i ∷ is) totals s =
      let r = summarize_community services force previous i s in
      omega (
        arith,
        counted r.result totals,
        failed_mono previous is (count_result r.result totals) r.store,
      )
    where
      counted :
          (r : Result) (totals : Totals)
          → totals.failed_count ≤ (count_result r totals).failed_count
      counted summarized totals = omega arith
      counted skipped totals = omega arith
      counted failed totals = omega arith

  not_failed :
      (r : Result) (totals : Totals) (n : ℕ)
      → (count_result r totals).failed_count ≤ n
      → n ≡ 0
      → r ≢ failed
  unfolding count_result
  not_failed summarized totals n h z e = cc e
  not_failed skipped totals n h z e = cc e
  not_failed failed totals n h z e = omega arith

  -- The loop: without a failure every community in the list is settled at its end.
  pub each-IsSettled :
      (previous : Option Previous) (ids : List ℕ) (totals : Totals) (s : Store)
      → (force ≡ true) ⊎ (previous ≡ some (by_hash base.communities))
      → Loop s
      → (summarize_each services force previous ids totals s).totals.failed_count ≡ 0
      → Loop (summarize_each services force previous ids totals s).store
        × ((i : ℕ)
            → In i ids ⊎ IsSettled s i
            → IsSettled (summarize_each services force previous ids totals s).store i)
  unfolding summarize_each
  each-IsSettled previous [] totals s trust loop zero_failed =
      (loop, λ i m. elim m [ inl h ↦ elim h [ ] | inr h ↦ h ])
  each-IsSettled previous (i ∷ is) totals s trust loop zero_failed =
      let r = summarize_community services force previous i s in
      let (rows, (trusted, did)) = community-cases previous i s trust in
      let ok_ =
        not_failed r.result totals _
          (failed_mono previous is (count_result r.result totals) r.store) zero_failed in
      let (loop', later) =
        each-IsSettled previous is (count_result r.result totals) r.store trust
          (Did-Loop rows i s r loop did) zero_failed in
      (
        loop',
        λ j m. later j (
            pass r.store j (Did-settles rows i s r trusted loop ok_ did)
              (λ h. Did-keeps rows i s r loop did j h) m),
      )
    where
      pass :
          (t : Store) (j : ℕ)
          → IsSettled t i
          → (Has s.communities j (hash j) → Has t.communities j (hash j))
          → In j (i ∷ is) ⊎ IsSettled s j
          → In j is ⊎ IsSettled t j
      pass t j own keeps (inl (inl e)) = inr (subst (λ k. IsSettled t k) (sym e) own)
      pass t j own keeps (inl (inr m)) = inl m
      pass t j own keeps (inr (inl e)) = inr (inl e)
      pass t j own keeps (inr (inr h)) = inr (inr (keeps h))
