-- ===== src/Ingest/Files/Accepted.antt =====
-- The files of one directory that pass the filters.
use mathlib.Core.Path.{subst}
use local_graph_rag.Prelude.{
  ℕ, ◌≤◌, ◌≡◌, refl, sym, ap, ◌∙◌, inl, inr, true, false, ◌&&◌, Bool-cases, Option, none, some,
  Option-cases, List, [], ◌∷◌, ◌++◌, In, nat_eq, list_eq, arith,
}
use local_graph_rag.Ingest.Paths.{FilePath, is_under_any_root, has_allowed_extension}
use local_graph_rag.Ingest.Files.{
  Rules, FileEntry, matches_ignore_pattern, is_within_size_limit, is_safe_indexable_file, accept,
  accept_all, visit,
}

module _ (rules : Rules) where
  -- The file is no link, is within the limits, and no pattern ignores its name.
  pub record IsAccepted (path : FilePath) (f : FileEntry) : Type 0 where
    pub not_ignored : matches_ignore_pattern rules f.name ≡ false
    pub no_link : f.is_symlink ≡ some false
    pub real : (f.resolves ≡ true) × (f.is_file ≡ true)
    pub under_root : is_under_any_root path rules.docs_roots ≡ true
    pub allowed : has_allowed_extension path rules.allowed ≡ true
    pub small : (n : ℕ) × ((f.size ≡ some n) × (n ≤ rules.max_file_bytes))

  -- A file of the directory `here` that is accepted, in a directory where each test of a file works.
  pub data FoundIn (here : FilePath) (fs : List FileEntry) (p : FilePath) : Type 0 where
    found :
        (f : FileEntry) (ps : List FilePath)
        → accept_all rules here fs ≡ some ps
        → In f fs
        → IsAccepted (here ++ f.name ∷ []) f
        → p ≡ here ++ f.name ∷ []
        → FoundIn here fs p

  within_limit :
      (size : Option ℕ)
      → is_within_size_limit rules.max_file_bytes size ≡ true
      → (n : ℕ) × ((size ≡ some n) × (n ≤ rules.max_file_bytes))
  unfolding is_within_size_limit
  within_limit none h = absurd (cc h)
  within_limit (some n) h = (n, (refl, ground arith))

  limit_within :
      (size : Option ℕ) (n : ℕ)
      → size ≡ some n
      → n ≤ rules.max_file_bytes
      → is_within_size_limit rules.max_file_bytes size ≡ true
  unfolding is_within_size_limit
  limit_within size n e le = rw e (ground arith)

  accept-IsAccepted :
      (here : FilePath) (f : FileEntry)
      → accept rules here f ≡ some true
      → IsAccepted (here ++ f.name ∷ []) f
  unfolding accept is_safe_indexable_file
  accept-IsAccepted here f h = elim (Bool-cases (matches_ignore_pattern rules f.name)) [
    | inl e ↦ absurd (cc (rw (e, accept) at h))
    | inr e ↦ elim (Option-cases f.is_symlink) [
      | inl l ↦ absurd (cc (rw (e, accept, l) at h))
      | inr (true, l) ↦ absurd (cc (rw (e, accept, l) at h))
      | inr (false, l) ↦
          let all_ : (f.resolves
                && (f.is_file
                    && (is_under_any_root (here ++ f.name ∷ []) rules.docs_roots
                        && (has_allowed_extension (here ++ f.name ∷ []) rules.allowed
                            && is_within_size_limit rules.max_file_bytes f.size))))
              ≡ true =
            cc (rw (e, accept, l) at h) in
          record {
            not_ignored = e;
            no_link = l;
            real = (ground arith, ground arith);
            under_root = ground arith;
            allowed = ground arith;
            small = within_limit f.size (ground arith);
          }
    ]
  ]

  IsAccepted-accept :
      (here : FilePath) (f : FileEntry)
      → IsAccepted (here ++ f.name ∷ []) f
      → accept rules here f ≡ some true
  unfolding accept is_safe_indexable_file
  IsAccepted-accept here f a =
      let (n, (e, le)) = a.small in
      rw
        (
          a.not_ignored,
          a.no_link,
          a.real.0,
          a.real.1,
          a.under_root,
          a.allowed,
          limit_within f.size n e le,
        )
        refl

  Of : FilePath → List FileEntry → FilePath → Type 0
  Of here fs p =
      (f : FileEntry) × (In f fs × (IsAccepted (here ++ f.name ∷ []) f × (p ≡ here ++ f.name ∷ [])))

  Of-later :
      (here : FilePath) (g : FileEntry) (fs : List FileEntry) (p : FilePath)
      → Of here fs p
      → Of here (g ∷ fs) p
  unfolding Of
  Of-later here g fs p (f, (m, o)) = (f, (inr m, o))

  all_Of :
      (here : FilePath) (fs : List FileEntry) (ps : List FilePath) (p : FilePath)
      → accept_all rules here fs ≡ some ps
      → In p ps
      → Of here fs p
  unfolding accept_all Of
  all_Of here [] ps p h m = let none_ : [] ≡ ps = cc h in absurd (subst (λ l. In p l) (sym none_) m)
  all_Of here (f ∷ fs) ps p h m = elim (Option-cases (accept rules here f)) [
    | inl e ↦ absurd (cc (rw (e, accept_all) at h))
    | inr (false, e) ↦ Of-later here f fs p (all_Of here fs ps p (rw (e, accept_all) at h) m)
    | inr (true, e) ↦ elim (Option-cases (accept_all rules here fs)) [
      | inl r ↦ absurd (cc (rw (e, accept_all, r) at h))
      | inr (qs, r) ↦
          let same : (here ++ f.name ∷ []) ∷ qs ≡ ps = cc (rw (e, accept_all, r) at h) in
          elim (subst (λ l. In p l) (sym same) m) as (λ v. Of here (f ∷ fs) p) [
            | inl own ↦ (f, (inl refl, (accept-IsAccepted here f e, own)))
            | inr k ↦ Of-later here f fs p (all_Of here fs qs p r k)
          ]
    ]
  ]

  Of_all :
      (here : FilePath) (fs : List FileEntry) (ps : List FilePath) (f : FileEntry)
      → accept_all rules here fs ≡ some ps
      → In f fs
      → IsAccepted (here ++ f.name ∷ []) f
      → In (here ++ f.name ∷ []) ps
  unfolding accept_all
  Of_all here [] ps f h m a = absurd m
  Of_all here (g ∷ fs) ps f h m a = elim (Option-cases (accept rules here g)) [
    | inl e ↦ absurd (cc (rw (e, accept_all) at h))
    | inr (false, e) ↦ elim m as (λ v. In (here ++ f.name ∷ []) ps) [
      | inl own ↦
          absurd (cc (sym (IsAccepted-accept here f a) ∙ ap (λ x. accept rules here x) own ∙ e))
      | inr k ↦ Of_all here fs ps f (rw (e, accept_all) at h) k a
    ]
    | inr (true, e) ↦ elim (Option-cases (accept_all rules here fs)) [
      | inl r ↦ absurd (cc (rw (e, accept_all, r) at h))
      | inr (qs, r) ↦
          let same : (here ++ g.name ∷ []) ∷ qs ≡ ps = cc (rw (e, accept_all, r) at h) in
          subst (λ l. In (here ++ f.name ∷ []) l) same
            (elim m as (λ v. In (here ++ f.name ∷ []) ((here ++ g.name ∷ []) ∷ qs)) [
              | inl own ↦ inl (ap (λ (x : FileEntry). here ++ x.name ∷ []) own)
              | inr k ↦ inr (Of_all here fs qs f r k a)
            ])
    ]
  ]

  pub visit-found :
      (here : FilePath) (fs : List FileEntry) (p : FilePath)
      → In p (visit rules here fs).files
      → FoundIn here fs p
  unfolding visit Of
  visit-found here fs p m = elim (Option-cases (accept_all rules here fs)) [
    | inl e ↦ absurd (rw (e, visit, In) at m)
    | inr (qs, e) ↦
        let (f, (n, (a, own))) =
          all_Of here fs qs p e (subst (λ l. In p l) (rw (e, visit) refl) m) in
        found f qs e n a own
  ]

  pub found-visit :
      (here : FilePath) (fs : List FileEntry) (p : FilePath)
      → FoundIn here fs p
      → In p (visit rules here fs).files
  unfolding visit
  found-visit here fs p (found f qs e m a own) =
      subst (λ l. In p l) (rw (e, visit) refl)
        (subst (λ x. In x qs) (sym own) (Of_all here fs qs f e m a))
