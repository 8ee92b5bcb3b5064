-- ===== src/Ingest/GitHistory/Sync/Removed.antt =====
-- A history document is deleted only when its repository is gone.
use mathlib.Core.Path.{subst}
use local_graph_rag.Prelude.{
  All, Option-cases, none, some, Option, ◌⊎◌, ◌≡◌, ◌≢◌, refl, sym, ap, ◌∙◌, inl, inr, Bool, true,
  false, not, ◌&&◌, Bool-cases, List, [], ◌∷◌, keep, In, contains, is_empty, nat_eq, list_eq, ◌==◌,
  eq_iff, arith, if◌then◌else◌,
}
use local_graph_rag.Prelude.Text.{Str}
use local_graph_rag.Ingest.Files.{IndexPath, matches_ignore_pattern}
use local_graph_rag.Prelude.Members.{All-of_In, In-keep, contains-of_In}
use local_graph_rag.Ingest.Files.{Rules}
use local_graph_rag.Ingest.GitHistory.Sync.{
  Docs, has_doc, Child, ProjectRoot, Sync, sync_roots, sync_start, drop_gone, sync_git_histories,
}
use local_graph_rag.Ingest.GitHistory.Sync.Growth.{
  Grows, IsPresent, after_root, raised_roots, next_root, sync_repos-present, sync_roots-Grows,
}

module _ (rules : Rules) where
  still_raised :
      (roots : List ProjectRoot) (s : Sync)
      → (sync_roots rules roots s).raised ≡ false
      → s.raised ≡ false
  unfolding sync_roots
  still_raised [] s ok = ok
  still_raised (root ∷ roots) s ok = elim (Bool-cases s.raised) [
    | inl e ↦ absurd (cc (ap (λ (t : Sync). t.raised) (raised_roots rules root roots s e) ∙ ok))
    | inr e ↦ e
  ]

  -- The entry is synchronised: it is not excluded or ignored, and has a `.git`.
  abbrev pub is_found : Option Bool → Bool
  is_found none = false
  is_found (some b) = b

  unfoldable pub is_counted : IndexPath → Child → Bool
  is_counted ip repo =
      not (contains repo.name ip.exclude_dirs)
      && (not (matches_ignore_pattern rules repo.name) && is_found repo.has_git)

  -- The entry is not synchronised, or has another name.
  pub IsOther : Str → IndexPath → Child → Type 0
  IsOther n ip repo = (is_counted ip repo ≡ false) ⊎ (repo.name ≢ n)

  -- The root has entries, and no repository of that name.
  pub IsWithout : Str → ProjectRoot → Type 0
  IsWithout n root = (is_empty root.children ≡ false) × All (IsOther n root.ip) root.children

  counted-IsPresent :
      (ip : IndexPath) (repo : Child) → is_counted ip repo ≡ true → IsPresent rules ip repo
  unfolding is_counted
  counted-IsPresent ip repo h = elim (Option-cases repo.has_git) [
    | inl e ↦ absurd (let k = rw (e, is_counted) at h in ground arith)
    | inr (false, e) ↦ absurd (let k = rw (e, is_counted) at h in ground arith)
    | inr (true, e) ↦ record {
      not_excluded = ground arith;
      not_ignored = ground arith;
      is_repo = e;
    }
  ]

  to_IsOther :
      (n : Str) (ip : IndexPath) (repo : Child)
      → (IsPresent rules ip repo → repo.name ≢ n)
      → IsOther n ip repo
  unfolding IsOther
  to_IsOther n ip repo h = elim (Bool-cases (is_counted ip repo)) [
    | inl e ↦ inr (h (counted-IsPresent ip repo e))
    | inr e ↦ inl e
  ]

  here-IsWithout :
      (n : Str) (root : ProjectRoot) (s t : Sync)
      → Grows (after_root rules root s) t
      → t.all_roots_listed ≡ true
      → (In n t.present → ⊥)
      → (after_root rules root s).raised ≡ false
      → IsWithout n root
  unfolding after_root IsWithout
  here-IsWithout n root s t g all_ gone ok = elim (Bool-cases (is_empty root.children)) [
    | inl b ↦ absurd (let k = g.listed all_ in cc (rw (b, after_root) at k))
    | inr b ↦ (
      b,
      All-of_In (IsOther n root.ip) root.children (λ repo m. to_IsOther n root.ip repo (λ h e.
          gone (
            subst (λ x. In x t.present) e
              (g.present_kept repo.name (
                rw (b, after_root)
                  (sync_repos-present rules root.ip root.children s repo (rw (b, after_root) at ok)
                    m h)))))),
    )
  ]

  roots-IsWithout :
      (n : Str) (roots : List ProjectRoot) (s : Sync)
      → (sync_roots rules roots s).raised ≡ false
      → (sync_roots rules roots s).all_roots_listed ≡ true
      → (In n (sync_roots rules roots s).present → ⊥)
      → (root : ProjectRoot) → In root roots
      → IsWithout n root
  roots-IsWithout n [] s ok all_ gone root m = absurd m
  roots-IsWithout n (r ∷ roots) s ok all_ gone root m =
      let e = still_raised (r ∷ roots) s ok in
      let step = next_root rules r roots s e in
      let ok' : (sync_roots rules roots (after_root rules r s)).raised ≡ false =
        ap (λ (t : Sync). t.raised) step ∙ ok in
      elim m as (λ v. IsWithout n root) [
        | inl own ↦
            subst (λ x. IsWithout n x) (sym own)
              (here-IsWithout n r s (sync_roots rules (r ∷ roots) s)
                (subst (λ t. Grows (after_root rules r s) t) step
                  (sync_roots-Grows rules roots (after_root rules r s)))
                all_ gone (still_raised roots (after_root rules r s) ok'))
        | inr k ↦
            roots-IsWithout n roots (after_root rules r s) ok'
              (ap (λ (t : Sync). t.all_roots_listed) step ∙ all_)
              (λ i. gone (subst (λ (t : Sync). In n t.present) step i)) root k
      ]

  kept_docs :
      (n : Str) (docs : Docs) (present : List Str)
      → has_doc n docs ≡ true
      → contains n present ≡ true
      → has_doc n (keep (λ (d : Str × Str). contains d.0 present) docs) ≡ true
  kept_docs n [] present h p = absurd (cc h)
  kept_docs n ((s, t) ∷ docs) present h p = elim (Bool-cases (s == n)) [
    | inl e ↦
        let same = (eq_iff s n).0 e in
        let there : contains s present ≡ true =
          subst (λ x. contains x present ≡ true) (sym same) p in
        rw there (rw e refl)
    | inr e ↦ elim (Bool-cases (contains s present)) [
      | inl there ↦ rw (there, e) (kept_docs n docs present (rw e at h) p)
      | inr gone ↦ rw gone (kept_docs n docs present (rw e at h) p)
    ]
  ]

  gone_dropped :
      (n : Str) (s : Sync)
      → has_doc n s.docs ≡ true
      → has_doc n (drop_gone s).docs ≡ false
      → (s.raised ≡ false) × ((s.all_roots_listed ≡ true) × (In n s.present → ⊥))
  unfolding drop_gone
  gone_dropped n s h g = elim (Bool-cases (not s.raised && s.all_roots_listed)) [
    | inr e ↦ absurd (
        cc (
          sym h
          ∙ (ap
                (λ b.
                  has_doc n
                    (if b
                      then record s {
                        docs = keep (λ (d : Str × Str). contains d.0 s.present) s.docs;
                      }
                      else s).docs)
                (sym e)
              ∙ g)))
    | inl e ↦
        let lost : has_doc n (keep (λ (d : Str × Str). contains d.0 s.present) s.docs) ≡ false =
          ap
            (λ b.
              has_doc n
                (if b
                  then record s { docs = keep (λ (d : Str × Str). contains d.0 s.present) s.docs }
                  else s).docs)
            (sym e)
          ∙ g in
        (
          ground arith,
          (
            ground arith,
            λ i.
                absurd
                  (cc (sym (kept_docs n s.docs s.present h (contains-of_In s.present n i)) ∙ lost)),
          ),
        )
  ]

  -- If a document is gone after a synchronisation, then each root marked `projects` had entries, and
  -- among them no repository of its name that is neither excluded nor ignored.
  pub sync_git_histories-IsWithout :
      (makes : Bool) (roots : List ProjectRoot) (docs : Docs) (n : Str)
      → has_doc n docs ≡ true
      → has_doc n (sync_git_histories rules makes roots docs).docs ≡ false
      → (root : ProjectRoot) → In root roots
      → root.ip.projects ≡ true
      → IsWithout n root
  unfolding sync_git_histories
  sync_git_histories-IsWithout makes roots docs n h g root m own =
      let project_roots = keep (λ (r : ProjectRoot). r.ip.projects) roots in
      elim (Bool-cases (is_empty project_roots)) [
        | inl e ↦ absurd (cc (sym h ∙ (rw (e, sync_git_histories) at g)))
        | inr e ↦ elim (Bool-cases makes) [
          | inr b ↦ absurd (cc (sym h ∙ (rw (e, sync_git_histories, b) at g)))
          | inl b ↦
              let s = sync_roots rules project_roots (sync_start docs) in
              let (ok, (all_, gone)) =
                gone_dropped n s
                  ((sync_roots-Grows rules project_roots (sync_start docs)).docs_kept n h)
                  (rw (e, sync_git_histories, b) at g) in
              roots-IsWithout n project_roots (sync_start docs) ok all_ gone root
                (In-keep (λ (r : ProjectRoot). r.ip.projects) roots root m own)
        ]
      ]
