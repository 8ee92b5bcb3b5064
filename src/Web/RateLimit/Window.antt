-- ===== src/Web/RateLimit/Window.antt =====
-- The limiter holds in every window: requests and sweeps in any order, at times that do not decrease.
use mathlib.Core.Path.{subst}
use local_graph_rag.Prelude.{
  ℕ, suc, ◌≤◌, ◌≡◌, refl, sym, ap, ◌∙◌, Bool, true, false, Option, none, some, List, [], ◌∷◌, ◌++◌,
  keep, any, length, leb, nat_eq, list_eq, ◌==◌, eq_iff, if◌then◌else◌, arith, Bool-cases, inl, inr,
}
use local_graph_rag.Prelude.Text.{Str}
use local_graph_rag.Prelude.Members.{==-comm}
use local_graph_rag.Web.RateLimit.{
  Buckets, Limit, is_live, times_of, check_rate_limit, swept_bucket, sweep_expired,
}

-- The requests that were let through, newest first.
abbrev pub History : Type 0
History = List (Str × ℕ)

abbrev pub record_if : Bool → Str × ℕ → History → History
record_if b r h = if b then r ∷ h else h

-- The states that requests and sweeps reach, with the time of the last one.
pub data Reaches (limit : Limit) : ℕ → Buckets → History → Type 0 where
  start : Reaches limit 0 (λ _. none) []
  requested :
      {t : ℕ} {b : Buckets} {h : History} (ip : Str) (now : ℕ)
      → t ≤ now
      → Reaches limit t b h
      → Reaches limit now
          (check_rate_limit limit ip now b).1
          (record_if (check_rate_limit limit ip now b).0 (ip, now) h)
  swept :
      {t : ℕ} {b : Buckets} {h : History} (now : ℕ)
      → t ≤ now
      → Reaches limit t b h
      → Reaches limit now (sweep_expired limit now b) h

-- The number of live times.
pub live_count : Limit → ℕ → List ℕ → ℕ
live_count limit now [] = 0
live_count limit now (t ∷ ts) =
    let rest = live_count limit now ts in if is_live limit now t then suc rest else rest

-- The times at which an ip was let through.
pub times_in : Str → History → List ℕ
times_in ip [] = []
times_in ip ((key, t) ∷ h) = let rest = times_in ip h in if key == ip then t ∷ rest else rest

record Holds (limit : Limit) (t : ℕ) (b : Buckets) (h : History) : Type 0 where
  same :
      (ip : Str) (now : ℕ)
      → t ≤ now
      → live_count limit now (times_of (b ip)) ≡ live_count limit now (times_in ip h)
  within : (ip : Str) → live_count limit t (times_in ip h) ≤ limit.max_requests

module _ (limit : Limit) where
  below :
      (a c d : ℕ) → a ≡ c → leb limit.max_requests a ≡ false → d ≤ suc c → d ≤ limit.max_requests
  below a c d e l le = ground arith

  length-live :
      (now : ℕ) (ts : List ℕ) → length (keep (is_live limit now) ts) ≡ live_count limit now ts
  unfolding live_count
  length-live now [] = refl
  length-live now (x ∷ ts) = elim (Bool-cases (is_live limit now x)) [
    | inl e ↦ rw e (ap suc (length-live now ts))
    | inr e ↦ rw e (length-live now ts)
  ]

  stale-later : (t now x : ℕ) → t ≤ now → is_live limit t x ≡ false → is_live limit now x ≡ false
  stale-later t now x le e = ground arith

  count-kept :
      (t now : ℕ) (ts : List ℕ)
      → t ≤ now
      → live_count limit now (keep (is_live limit t) ts) ≡ live_count limit now ts
  unfolding live_count
  count-kept t now [] le = refl
  count-kept t now (x ∷ ts) le = elim (Bool-cases (is_live limit t x)) [
    | inl e ↦ elim (Bool-cases (is_live limit now x)) [
      | inl e' ↦ rw (e, e') (ap suc (count-kept t now ts le))
      | inr e' ↦ rw (e, e') (count-kept t now ts le)
    ]
    | inr e ↦ rw (e, stale-later t now x le e) (count-kept t now ts le)
  ]

  count_mono : (t now : ℕ) (ts : List ℕ) → t ≤ now → live_count limit now ts ≤ live_count limit t ts
  unfolding live_count
  count_mono t now [] le = omega arith
  count_mono t now (x ∷ ts) le = let rest = count_mono t now ts le in ground arith

  count-snoc :
      (now t : ℕ) (ts : List ℕ)
      → live_count limit now (ts ++ t ∷ []) ≡ live_count limit now (t ∷ ts)
  unfolding live_count
  count-snoc now t [] = refl
  count-snoc now t (x ∷ ts) = let rest = count-snoc now t ts in ground arith

  none-live :
      (t now : ℕ) (ts : List ℕ)
      → t ≤ now
      → any (is_live limit t) ts ≡ false
      → live_count limit now ts ≡ 0
  unfolding live_count
  none-live t now [] le h = refl
  none-live t now (x ∷ ts) le h = elim (Bool-cases (is_live limit t x)) [
    | inl e ↦ absurd (cc (rw (e, any) at h))
    | inr e ↦ rw (stale-later t now x le e) (none-live t now ts le (rw (e, any) at h))
  ]

  count-swept :
      (t now : ℕ) (o : Option (List ℕ))
      → t ≤ now
      → live_count limit now (times_of (swept_bucket limit t o)) ≡ live_count limit now (times_of o)
  count-swept t now none le = refl
  count-swept t now (some ts) le = elim (Bool-cases (any (is_live limit t) ts)) [
    | inl e ↦ rw e
    | inr e ↦ rw e (unfold live_count in sym (none-live t now ts le e))
  ]

  count-cons :
      (now x : ℕ) (ts us : List ℕ)
      → live_count limit now ts ≡ live_count limit now us
      → live_count limit now (x ∷ ts) ≡ live_count limit now (x ∷ us)
  unfolding live_count
  count-cons now x ts us e = ground arith

  count-le :
      (now x : ℕ) (ts : List ℕ) → live_count limit now (x ∷ ts) ≤ suc (live_count limit now ts)
  unfolding live_count
  count-le now x ts = ground arith

  -- The new bucket of an ip that was let through.
  count-accepted :
      (now now' : ℕ) (ts us : List ℕ)
      → now ≤ now'
      → live_count limit now' ts ≡ live_count limit now' us
      → live_count limit now' (keep (is_live limit now) ts ++ now ∷ [])
        ≡ live_count limit now' (now ∷ us)
  count-accepted now now' ts us le same =
      count-snoc now' now (keep (is_live limit now) ts)
      ∙ count-cons now' now (keep (is_live limit now) ts) us (count-kept now now' ts le ∙ same)

  requested-Holds :
      (t now : ℕ) (b : Buckets) (h : History) (ip : Str)
      → t ≤ now
      → Holds limit t b h
      → Holds limit now
          (check_rate_limit limit ip now b).1
          (record_if (check_rate_limit limit ip now b).0 (ip, now) h)
  unfolding check_rate_limit times_in live_count
  requested-Holds t now b h ip le holds =
      elim (Bool-cases
        (leb limit.max_requests (length (keep (is_live limit now) (times_of (b ip)))))) [
          | inl e ↦ rw e (record {
            same = λ key now' le'. holds.same key now' (omega arith);
            within = λ key.
                let m = count_mono t now (times_in key h) le in
                let w = holds.within key in omega arith;
          })
          | inr e ↦ rw e (record {
            same = λ key now' le'. elim (Bool-cases (key == ip)) [
              | inl own ↦
                  let own' : (ip == key) ≡ true = ==-comm ip key ∙ own in
                  rw (own, own')
                    (count-accepted now now' (times_of (b ip)) (times_in key h) le' (
                      subst
                        (λ k.
                          live_count limit now' (times_of (b k))
                          ≡ live_count limit now' (times_in key h))
                        ((eq_iff key ip).0 own) (holds.same key now' (omega arith))))
              | inr other ↦ rw (other, ==-comm ip key ∙ other) (holds.same key now' (omega arith))
            ];
            within = λ key.
                let m = count_mono t now (times_in key h) le in
                let w = holds.within key in
                elim (Bool-cases (key == ip)) [
                  | inl own ↦
                      let own' : (ip == key) ≡ true = ==-comm ip key ∙ own in
                      let full : length (keep (is_live limit now) (times_of (b key)))
                          ≡ live_count limit now (times_in key h) =
                        length-live now (times_of (b key)) ∙ holds.same key now le in
                      let e' =
                        ap (λ k. length (keep (is_live limit now) (times_of (b k))))
                          ((eq_iff key ip).0 own) in
                      rw own' (
                        let c = count-le now now (times_in key h) in
                        below (length (keep (is_live limit now) (times_of (b ip))))
                          (live_count limit now (times_in key h)) _ (sym e' ∙ full) e c)
                  | inr other ↦ rw (==-comm ip key ∙ other) (omega arith)
                ];
          })
        ]

  swept-Holds :
      (t now : ℕ) (b : Buckets) (h : History)
      → t ≤ now
      → Holds limit t b h
      → Holds limit now (sweep_expired limit now b) h
  unfolding sweep_expired
  swept-Holds t now b h le holds = record {
    same = λ key now' le'. count-swept now now' (b key) le' ∙ holds.same key now' (omega arith);
    within = λ key.
        let m = count_mono t now (times_in key h) le in let w = holds.within key in omega arith;
  }

  Reaches-Holds : (t : ℕ) (b : Buckets) (h : History) → Reaches limit t b h → Holds limit t b h
  unfolding times_in live_count
  Reaches-Holds _ _ _ start = record { same = λ key now le. refl; within = λ key. omega arith }
  Reaches-Holds _ _ _ (requested {t} {b} {h} ip now le r) =
      requested-Holds t now b h ip le (Reaches-Holds t b h r)
  Reaches-Holds _ _ _ (swept {t} {b} {h} now le r) =
      swept-Holds t now b h le (Reaches-Holds t b h r)

  -- After any requests and sweeps, at times that do not decrease, and at every later moment, no ip
  -- has been let through more than max_requests times in the window that ends at that moment.
  pub Reaches-within :
      (t : ℕ) (b : Buckets) (h : History) (ip : Str) (now : ℕ)
      → Reaches limit t b h
      → t ≤ now
      → live_count limit now (times_in ip h) ≤ limit.max_requests
  Reaches-within t b h ip now r le =
      let m = count_mono t now (times_in ip h) le in
      let w = (Reaches-Holds t b h r).within ip in omega arith
