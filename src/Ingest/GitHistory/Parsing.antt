-- ===== src/Ingest/GitHistory/Parsing.antt =====
-- `parse_log` reads what git prints for the format of the log.
use mathlib.Core.List.{append_assoc, append-nil}
use local_graph_rag.Prelude.{
  all, not, nat_eqb_iff, ℕ, ◌≡◌, refl, sym, ap, ◌∙◌, true, false, some, List, [], ◌∷◌, ◌++◌, map,
  flatten, All, drop, nat_eqb, Bool-cases, inl, inr, ◌&&◌,
}
use local_graph_rag.Prelude.Text.{Str, starts_with, split_from, split_on}
use local_graph_rag.Prelude.Text.{is_space}
use local_graph_rag.Prelude.Strip.{IsStripped}
use local_graph_rag.Ingest.GitHistory.Names.{
  printed_lines, IsLine, KeptLines, splitlines-printed, strip-IsStripped, keep-KeptLines,
}
use local_graph_rag.Ingest.GitHistory.{
  Commit, record_sep, field_sep, commit_of, commit_of_fields, parse_records, parse_log,
}

-- The fields of a commit as git prints them, and the lines after them, with the names of the files.
pub record Fields : Type 0 where
  pub short_hash : Str
  pub date : Str
  pub subject : Str
  pub body : Str
  pub lines : List Str

-- One record of the log: _LOG_FORMAT, and the names of the files after it.
abbrev pub printed_fields : Fields → Str
printed_fields f =
    f.short_hash
    ++ (field_sep
        ∷ (f.date
            ++ (field_sep
                ∷ (f.subject ++ (field_sep ∷ (f.body ++ (field_sep ∷ printed_lines f.lines)))))))

abbrev pub printed : Fields → Str
printed f = record_sep ∷ printed_fields f

abbrev pub Without : ℕ → Str → Type 0
Without sep s = All (λ c. nat_eqb sep c ≡ false) s

pub Without-of_all : (sep : ℕ) (s : Str) → all (λ c. not (nat_eqb sep c)) s ≡ true → Without sep s
Without-of_all sep [] h = tt
Without-of_all sep (c ∷ cs) h = elim (Bool-cases (nat_eqb sep c)) [
  | inl e ↦ absurd (cc (rw (e, all) at h))
  | inr e ↦ (e, Without-of_all sep cs (rw (e, all) at h))
]

-- No field holds a separator, and no line a line break.
pub record IsPlain (f : Fields) : Type 0 where
  pub of_fields :
      Without field_sep f.short_hash
      × Without field_sep f.date
      × Without field_sep f.subject
      × Without field_sep f.body
      × Without field_sep (printed_lines f.lines)
  pub of_records : Without record_sep (printed_fields f)
  pub of_lines : All IsLine f.lines

starts_self : (sep : ℕ) (ys : Str) → starts_with (sep ∷ []) (sep ∷ ys) ≡ true
unfolding starts_with
starts_self sep ys = ap (λ b. b && true) ((nat_eqb_iff sep sep).1 refl)

starts_other :
    (sep x : ℕ) (ys : Str) → nat_eqb sep x ≡ false → starts_with (sep ∷ []) (x ∷ ys) ≡ false
unfolding starts_with
starts_other sep x ys e = ap (λ b. b && true) e

split-last :
    (sep : ℕ) (xs field : Str)
    → Without sep xs
    → split_from (sep ∷ []) 0 field xs ≡ (field ++ xs) ∷ []
unfolding split_from
split-last sep [] field w = ap (λ f. f ∷ []) (sym (append-nil field))
split-last sep (x ∷ xs) field w =
    rw (starts_other sep x xs w.0, split_from)
      (split-last sep xs (field ++ x ∷ []) w.1 ∙ ap (λ f. f ∷ []) (append_assoc field (x ∷ []) xs))

split-next :
    (sep : ℕ) (xs ys field : Str)
    → Without sep xs
    → split_from (sep ∷ []) 0 field (xs ++ sep ∷ ys) ≡ (field ++ xs) ∷ split_from (sep ∷ []) 0 [] ys
unfolding split_from
split-next sep [] ys field w =
    rw (starts_self sep ys, split_from)
      (ap (λ f. f ∷ split_from (sep ∷ []) 0 [] ys) (sym (append-nil field)))
split-next sep (x ∷ xs) ys field w =
    rw (starts_other sep x (xs ++ sep ∷ ys) w.0, split_from)
      (split-next sep xs ys (field ++ x ∷ []) w.1
        ∙ ap (λ f. f ∷ split_from (sep ∷ []) 0 [] ys) (append_assoc field (x ∷ []) xs))

-- What the commit of a printed record is: its texts, the subject and the body stripped, and the lines
-- that are not blank.
pub record IsRead (f : Fields) (c : Commit) : Type 0 where
  pub hash_read : c.short_hash ≡ f.short_hash
  pub date_read : c.date ≡ f.date
  pub subject_read : IsStripped is_space f.subject c.subject
  pub body_read : IsStripped is_space f.body c.body
  pub files_read : KeptLines f.lines c.files

-- The commits of the records, in order.
pub data AllRead : List Fields → List Commit → Type 0 where
  none_read : AllRead [] []
  read_next :
      (f : Fields) (fs : List Fields) (c : Commit) (cs : List Commit)
      → IsRead f c
      → AllRead fs cs
      → AllRead (f ∷ fs) (c ∷ cs)

fields-of_record :
    (f : Fields)
    → IsPlain f
    → split_on (field_sep ∷ []) (printed_fields f)
      ≡ f.short_hash ∷ f.date ∷ f.subject ∷ f.body ∷ printed_lines f.lines ∷ []
unfolding split_on
fields-of_record f p =
    let (h, d, s, b, t) = p.of_fields in
    split-next field_sep f.short_hash _ [] h
    ∙ ap (λ rest. f.short_hash ∷ rest)
        (split-next field_sep f.date _ [] d
          ∙ ap (λ rest. f.date ∷ rest)
              (split-next field_sep f.subject _ [] s
                ∙ ap (λ rest. f.subject ∷ rest)
                    (split-next field_sep f.body _ [] b
                      ∙ ap (λ rest. f.body ∷ rest)
                          (split-last field_sep (printed_lines f.lines) [] t))))

records-of_log :
    (f : Fields) (fs : List Fields) (field : Str)
    → Without record_sep field
    → All IsPlain (f ∷ fs)
    → split_from (record_sep ∷ []) 0 [] (field ++ flatten (map printed (f ∷ fs)))
      ≡ field ∷ map printed_fields (f ∷ fs)
unfolding flatten
records-of_log f [] field w a =
    split-next record_sep field (printed_fields f ++ []) [] w
    ∙ ap (λ rest. field ∷ rest)
        (ap (split_from (record_sep ∷ []) 0 []) (append-nil (printed_fields f))
          ∙ split-last record_sep (printed_fields f) [] a.0.of_records)
records-of_log f (g ∷ fs) field w a =
    split-next record_sep field (printed_fields f ++ flatten (map printed (g ∷ fs))) [] w
    ∙ ap (λ rest. field ∷ rest) (records-of_log g fs (printed_fields f) a.0.of_records a.1)

abbrev commit_from : Fields → Commit
commit_from f = commit_of f.short_hash f.date f.subject f.body (printed_lines f.lines)

parse-records :
    (fs : List Fields)
    → All IsPlain fs
    → parse_records (map printed_fields fs) ≡ some (map commit_from fs)
unfolding parse_records commit_of_fields
parse-records [] a = refl
parse-records (f ∷ fs) a = rw (fields-of_record f a.0, parse-records fs a.1) refl

commit_of-IsRead : (f : Fields) → IsPlain f → IsRead f (commit_from f)
unfolding commit_of
commit_of-IsRead f p = record {
  hash_read = refl;
  date_read = refl;
  subject_read = strip-IsStripped f.subject;
  body_read = strip-IsStripped f.body;
  files_read = rw (splitlines-printed f.lines p.of_lines) (keep-KeptLines f.lines);
}

commits-AllRead : (fs : List Fields) → All IsPlain fs → AllRead fs (map commit_from fs)
commits-AllRead [] a = none_read
commits-AllRead (f ∷ fs) a =
    read_next f fs (commit_from f) (map commit_from fs) (commit_of-IsRead f a.0)
      (commits-AllRead fs a.1)

-- The log that git prints for commits whose fields hold no separator, and whose lines of file names
-- hold no line break, is read as these commits, in order: with their hash and date, with the
-- subject and the body without the white space at their ends, and with the lines that are not blank.
pub parse_log-printed :
    (fs : List Fields)
    → All IsPlain fs
    → (cs : List Commit) × ((parse_log (flatten (map printed fs)) ≡ some cs) × AllRead fs cs)
parse_log-printed fs a = (map commit_from fs, (reads fs a, commits-AllRead fs a))
  where
    reads :
        (fs : List Fields)
        → All IsPlain fs
        → parse_log (flatten (map printed fs)) ≡ some (map commit_from fs)
    reads [] a = unfold parse_log split_on flatten split_from parse_records in refl
    reads (f ∷ fs) a =
        unfold parse_log split_on flatten in
        (ap (λ records. parse_records (drop 1 records)) (records-of_log f fs [] tt a)
          ∙ parse-records (f ∷ fs) a)
