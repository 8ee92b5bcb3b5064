-- ===== src/Ingest/GitHistory/Sync/Growth.antt =====
-- What a synchronisation only adds to, and which names it sees.
use mathlib.Core.Path.{subst}
use local_graph_rag.Prelude.{
  ◌≡◌, refl, sym, ap, ◌∙◌, inl, inr, true, false, ◌||◌, Bool-cases, some, Option-cases, List, [],
  ◌∷◌, In, contains, is_empty, nat_eq, list_eq, ◌==◌, eq_iff, if◌then◌else◌,
}
use local_graph_rag.Prelude.Text.{Str}
use local_graph_rag.Ingest.Files.{IndexPath, Rules, matches_ignore_pattern}
use local_graph_rag.Ingest.GitHistory.Sync.{
  Docs, has_doc, put_doc, Child, ProjectRoot, Sync, history_of, write_history, sync_repo,
  sync_repos, sync_roots,
}

put_doc-keeps :
    (n stem text : Str) (docs : Docs)
    → has_doc n docs ≡ true
    → has_doc n (put_doc stem text docs) ≡ true
unfolding put_doc
put_doc-keeps n stem text [] h = absurd (cc h)
put_doc-keeps n stem text ((s, t) ∷ docs) h = elim (Bool-cases (s == stem)) [
  | inl e ↦ rw (e, put_doc) (rw (← (eq_iff s stem).0 e) h)
  | inr e ↦
      rw (e, put_doc)
        (elim (Bool-cases (s == n))
          as (λ v. ((s == n) || has_doc n (put_doc stem text docs)) ≡ true) [
            | inl own ↦ rw own refl
            | inr other ↦ rw other (put_doc-keeps n stem text docs (rw other at h))
          ])
]

-- The later state keeps the documents and the names, and forgets no root that could not be listed.
pub record Grows (s t : Sync) : Type 0 where
  pub docs_kept : (n : Str) → has_doc n s.docs ≡ true → has_doc n t.docs ≡ true
  pub present_kept : (n : Str) → In n s.present → In n t.present
  pub listed : t.all_roots_listed ≡ true → s.all_roots_listed ≡ true

Grows-same :
    (s t : Sync)
    → s.docs ≡ t.docs
    → s.present ≡ t.present
    → s.all_roots_listed ≡ t.all_roots_listed
    → Grows s t
Grows-same s t d p l = record {
  docs_kept = λ n h. subst (λ x. has_doc n x ≡ true) d h;
  present_kept = λ n h. subst (λ x. In n x) p h;
  listed = λ h. l ∙ h;
}

Grows-trans : (s t u : Sync) → Grows s t → Grows t u → Grows s u
Grows-trans s t u g h = record {
  docs_kept = λ n m. h.docs_kept n (g.docs_kept n m);
  present_kept = λ n m. h.present_kept n (g.present_kept n m);
  listed = λ m. g.listed (h.listed m);
}

write_history-Grows : (repo : Child) (s : Sync) → Grows s (write_history repo s)
unfolding write_history
write_history-Grows repo s = elim (Option-cases (history_of repo)) [
  | inl e ↦ rw (e, write_history) (Grows-same s s refl refl refl)
  | inr (text, e) ↦ elim (Bool-cases repo.writes) [
    | inl w ↦
        rw (e, write_history, w)
          (record {
            docs_kept = λ n h. put_doc-keeps n repo.name text s.docs h;
            present_kept = λ n h. h;
            listed = λ h. h;
          })
    | inr w ↦ rw (e, write_history, w) (Grows-same s (record s { raised = true }) refl refl refl)
  ]
]

module _ (rules : Rules) where
  -- The entry is a repository that is neither excluded nor ignored.
  pub record IsPresent (ip : IndexPath) (repo : Child) : Type 0 where
    pub not_excluded : contains repo.name ip.exclude_dirs ≡ false
    pub not_ignored : matches_ignore_pattern rules repo.name ≡ false
    pub is_repo : repo.has_git ≡ some true

  sync_repo-Grows : (ip : IndexPath) (repo : Child) (s : Sync) → Grows s (sync_repo rules ip repo s)
  unfolding sync_repo
  sync_repo-Grows ip repo s =
      elim (Bool-cases
        (contains repo.name ip.exclude_dirs || matches_ignore_pattern rules repo.name)) [
          | inl e ↦ rw (e, sync_repo) (Grows-same s s refl refl refl)
          | inr e ↦ elim (Option-cases repo.has_git) [
            | inl g ↦
                rw (e, sync_repo, g) (Grows-same s (record s { raised = true }) refl refl refl)
            | inr (false, g) ↦ rw (e, sync_repo, g) (Grows-same s s refl refl refl)
            | inr (true, g) ↦
                let s' : Sync = record s { present = repo.name ∷ s.present } in
                rw (e, sync_repo, g)
                  (Grows-trans s s' (write_history repo s')
                    (record { docs_kept = λ n h. h; present_kept = λ n h. inr h; listed = λ h. h })
                    (write_history-Grows repo s'))
          ]
        ]

  sync_repo-present :
      (ip : IndexPath) (repo : Child) (s : Sync)
      → IsPresent ip repo
      → In repo.name (sync_repo rules ip repo s).present
  unfolding sync_repo
  sync_repo-present ip repo s h =
      rw (h.not_excluded, sync_repo, h.not_ignored, h.is_repo)
        ((write_history-Grows repo (record s { present = repo.name ∷ s.present })).present_kept
          repo.name (inl refl))

  raised_repos :
      (ip : IndexPath) (repo : Child) (repos : List Child) (s : Sync)
      → s.raised ≡ true
      → s ≡ sync_repos rules ip (repo ∷ repos) s
  unfolding sync_repos
  raised_repos ip repo repos s e =
      sym (ap (λ b. if b then s else sync_repos rules ip repos (sync_repo rules ip repo s)) e)

  next_repo :
      (ip : IndexPath) (repo : Child) (repos : List Child) (s : Sync)
      → s.raised ≡ false
      → sync_repos rules ip repos (sync_repo rules ip repo s) ≡ sync_repos rules ip (repo ∷ repos) s
  unfolding sync_repos
  next_repo ip repo repos s e =
      sym (ap (λ b. if b then s else sync_repos rules ip repos (sync_repo rules ip repo s)) e)

  -- The state after a root, if no exception came before.
  unfoldable pub after_root : ProjectRoot → Sync → Sync
  after_root root s =
      if is_empty root.children
      then record s { all_roots_listed = false }
      else sync_repos rules root.ip root.children s

  pub raised_roots :
      (root : ProjectRoot) (roots : List ProjectRoot) (s : Sync)
      → s.raised ≡ true
      → s ≡ sync_roots rules (root ∷ roots) s
  unfolding sync_roots after_root
  raised_roots root roots s e =
      sym (ap (λ b. if b then s else sync_roots rules roots (after_root root s)) e)

  pub next_root :
      (root : ProjectRoot) (roots : List ProjectRoot) (s : Sync)
      → s.raised ≡ false
      → sync_roots rules roots (after_root root s) ≡ sync_roots rules (root ∷ roots) s
  unfolding sync_roots after_root
  next_root root roots s e =
      sym (ap (λ b. if b then s else sync_roots rules roots (after_root root s)) e)

  sync_repos-Grows :
      (ip : IndexPath) (repos : List Child) (s : Sync) → Grows s (sync_repos rules ip repos s)
  unfolding sync_repos
  sync_repos-Grows ip [] s = Grows-same s s refl refl refl
  sync_repos-Grows ip (repo ∷ repos) s = elim (Bool-cases s.raised) [
    | inl e ↦
        subst (λ t. Grows s t) (raised_repos ip repo repos s e) (Grows-same s s refl refl refl)
    | inr e ↦
        subst (λ t. Grows s t) (next_repo ip repo repos s e)
          (Grows-trans s (sync_repo rules ip repo s)
            (sync_repos rules ip repos (sync_repo rules ip repo s)) (sync_repo-Grows ip repo s)
            (sync_repos-Grows ip repos (sync_repo rules ip repo s)))
  ]

  pub sync_repos-present :
      (ip : IndexPath) (repos : List Child) (s : Sync) (repo : Child)
      → (sync_repos rules ip repos s).raised ≡ false
      → In repo repos
      → IsPresent ip repo
      → In repo.name (sync_repos rules ip repos s).present
  sync_repos-present ip [] s repo ok m h = absurd m
  sync_repos-present ip (r ∷ repos) s repo ok m h = elim (Bool-cases s.raised) [
    | inl e ↦ absurd (cc (ap (λ (t : Sync). t.raised) (raised_repos ip r repos s e) ∙ ok))
    | inr e ↦
        subst (λ (t : Sync). In repo.name t.present) (next_repo ip r repos s e)
          (elim m
            as (λ v. In repo.name (sync_repos rules ip repos (sync_repo rules ip r s)).present) [
              | inl own ↦
                  (sync_repos-Grows ip repos (sync_repo rules ip r s)).present_kept repo.name (
                    subst (λ x. In repo.name (sync_repo rules ip x s).present) own
                      (sync_repo-present ip repo s h))
              | inr k ↦
                  sync_repos-present ip repos (sync_repo rules ip r s) repo
                    (ap (λ (t : Sync). t.raised) (next_repo ip r repos s e) ∙ ok) k h
            ])
  ]

  pub after_root-Grows : (root : ProjectRoot) (s : Sync) → Grows s (after_root root s)
  unfolding after_root
  after_root-Grows root s = elim (Bool-cases (is_empty root.children)) [
    | inl b ↦
        rw (b, after_root)
          (record { docs_kept = λ n h. h; present_kept = λ n h. h; listed = λ h. absurd (cc h) })
    | inr b ↦ rw (b, after_root) (sync_repos-Grows root.ip root.children s)
  ]

  pub sync_roots-Grows : (roots : List ProjectRoot) (s : Sync) → Grows s (sync_roots rules roots s)
  unfolding sync_roots
  sync_roots-Grows [] s = Grows-same s s refl refl refl
  sync_roots-Grows (root ∷ roots) s = elim (Bool-cases s.raised) [
    | inl e ↦ subst (λ t. Grows s t) (raised_roots root roots s e) (Grows-same s s refl refl refl)
    | inr e ↦
        subst (λ t. Grows s t) (next_root root roots s e)
          (Grows-trans s (after_root root s) (sync_roots rules roots (after_root root s))
            (after_root-Grows root s) (sync_roots-Grows roots (after_root root s)))
  ]
