-- ===== src/Graph/Summaries/Reuse.antt =====
-- What a run over the communities leaves, and what the next run finds.
use local_graph_rag.Prelude.{
  ℕ, ◌≡◌, refl, sym, ap, ◌∙◌, ◌⊎◌, inl, inr, Bool, true, false, not, ◌&&◌, Bool-cases, none, some,
  Option-cases, List, [], ◌∷◌, In, is_empty, nat_eqb, nat_eqb_iff, nat_eq, list_eq, ◌==◌, eq_iff,
  arith, if◌then◌else◌,
}
use local_graph_rag.Prelude.Text.{Str}
use local_graph_rag.Graph.Tables.{Community, Store, statement, foreign_keys_hold}
use local_graph_rag.Graph.Communities.{
  get_entities_for_community, upsert_community, replace_community,
}
use local_graph_rag.Graph.Summaries.Run.{
  Services, Previous, by_hash, Result, summarized, skipped, failed, Round, hash_of, saved, row_of,
  prompt_of, ask, save_answer, generate_summary, reuse_summary, summarize_members,
  summarize_community,
}

-- A row of community `i` with this hash.
abbrev pub Has : List Community → ℕ → Str → Type 0
Has rows i hash = (c : Community) × (In c rows × ((c.id ≡ i) × (c.member_hash ≡ hash)))

pub by_hash_sound :
    (rows : List Community) (hash : Str) (d : Community)
    → by_hash rows hash ≡ some d
    → In d rows × (d.member_hash ≡ hash)
unfolding by_hash
by_hash_sound [] hash d e = absurd (cc e)
by_hash_sound (c ∷ cs) hash d e = elim (Option-cases (by_hash cs hash)) [
  | inr (x, there) ↦
      let (m, h) = by_hash_sound cs hash d (there ∙ (rw (there, by_hash) at e)) in (inr m, h)
  | inl nothing ↦ here (rw (nothing, by_hash) at e)
]
  where
    here :
        (if not (is_empty c.member_hash) && c.member_hash == hash then some c else none) ≡ some d
        → In d (c ∷ cs) × (d.member_hash ≡ hash)
    here e = elim (Bool-cases (c.member_hash == hash)) [
      | inl same ↦
          let own : c ≡ d = ground arith in
          (
            inl (sym own),
            ap (λ (x : Community). x.member_hash) (sym own) ∙ (eq_iff c.member_hash hash).0 same,
          )
      | inr other ↦ absurd (ground arith)
    ]

matching :
    (c : Community) (hash : Str)
    → is_empty hash ≡ false
    → c.member_hash ≡ hash
    → (if not (is_empty c.member_hash) && c.member_hash == hash then some c else none) ≡ some c
matching c hash full e = rw (e, full, (eq_iff hash hash).1 refl) refl

pub by_hash-finds :
    (rows : List Community) (i : ℕ) (hash : Str)
    → is_empty hash ≡ false
    → Has rows i hash
    → (d : Community) × (by_hash rows hash ≡ some d)
unfolding by_hash
by_hash-finds [] i hash full (c, (m, _)) = elim m [ ]
by_hash-finds (c ∷ cs) i hash full (d, (m, (own, same))) = elim (Option-cases (by_hash cs hash)) [
  | inr (x, there) ↦ (x, rw (there, by_hash) refl)
  | inl nothing ↦ elim m [
    | inl here ↦ (
      c,
      rw (nothing, by_hash)
          (matching c hash full (ap (λ (x : Community). x.member_hash) (sym here) ∙ same)),
    )
    | inr later ↦
        let (x, there) = by_hash-finds cs i hash full (d, (later, (own, same))) in
        absurd (cc (sym nothing ∙ there))
  ]
]

-- What `summarize_community` has done with community `i` of the store `s`.
pub data Did (services : Services) (force : Bool) (rows : Previous) (i : ℕ) (s : Store) (r : Round)
    : Type 0 where
  gave_up : r.result ≡ failed → r.store ≡ s → Did services force rows i s r
  empty :
      is_empty (get_entities_for_community i s) ≡ true → r.store ≡ s → Did services force rows i s r
  wrote :
      (summary blob : Str)
      → r.store ≡ replace_community (row_of services i s summary blob) s
      → Did services force rows i s r
  found :
      (prior : Community)
      → force ≡ false
      → rows (hash_of services i s) ≡ some prior
      → prior.id ≡ i
      → r.store ≡ s
      → Did services force rows i s r

module _ (services : Services) where
  saved-cases :
      (result : Result) (c : Community) (s : Store)
      → ((saved result s (upsert_community c s)).result ≡ failed)
          × ((saved result s (upsert_community c s)).store ≡ s)
        ⊎ ((saved result s (upsert_community c s)).store ≡ replace_community c s)
  unfolding saved upsert_community statement
  saved-cases result c s = elim (Bool-cases (foreign_keys_hold (replace_community c s))) [
    | inl e ↦ inr (rw e refl)
    | inr e ↦ inl (rw e refl, rw e refl)
  ]

  generate-Did :
      (force : Bool) (rows : Previous) (i : ℕ) (s : Store)
      → Did services force rows i s (generate_summary services i s)
  unfolding generate_summary save_answer
  generate-Did force rows i s = elim (Option-cases (ask services (prompt_of i s))) [
    | inl e ↦ gave_up (rw e refl) (rw e refl)
    | inr ((summary, blob), e) ↦
        elim (saved-cases summarized (row_of services i s summary blob) s) [
          | inl (f, k) ↦ gave_up (rw e f) (rw e k)
          | inr w ↦ wrote summary blob (rw e w)
        ]
  ]

  members-Did :
      (force : Bool) (rows : Previous) (i : ℕ) (s : Store)
      → Did services force rows i s (summarize_members services force rows i s)
  unfolding summarize_members reuse_summary
  members-Did true rows i s = generate-Did true rows i s
  members-Did false rows i s = elim (Option-cases (rows (hash_of services i s))) [
    | inl e ↦ rw (e, summarize_members) (generate-Did false rows i s)
    | inr (prior, e) ↦ elim (Bool-cases (nat_eqb prior.id i)) [
      | inl own ↦
          found prior refl e ((nat_eqb_iff prior.id i).0 own) (rw (e, summarize_members, own) refl)
      | inr other ↦
          elim (saved-cases skipped (row_of services i s prior.summary prior.embedding) s) [
            | inl (f, k) ↦
                gave_up (rw (e, summarize_members, other) f) (rw (e, summarize_members, other) k)
            | inr w ↦ wrote prior.summary prior.embedding (rw (e, summarize_members, other) w)
          ]
    ]
  ]

  pub community-Did :
      (force : Bool) (rows : Previous) (i : ℕ) (s : Store)
      → Did services force rows i s (summarize_community services force (some rows) i s)
  unfolding summarize_community
  community-Did force rows i s = elim (Bool-cases (is_empty (get_entities_for_community i s))) [
    | inl e ↦ empty e (rw e refl)
    | inr e ↦ rw e (members-Did force rows i s)
  ]
