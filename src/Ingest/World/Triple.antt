-- ===== src/Ingest/World/Triple.antt =====
-- Specifications of methods: what holds when a method returns, and what holds when it raises.
use local_graph_rag.Prelude.{Bool, true, false, Option, none, some, ◌≡◌, refl, if◌then◌else◌}
use local_graph_rag.Graph.Tables.{Store}
use local_graph_rag.Ingest.World.{
  Fault, works, fails, World, Outcome, done, raised, M, pure, ◌>>=◌, continue, gets, next,
  head_fault, committed, with_unit, write_for, write, call,
}

abbrev pub Post :
    {A : Type 0} → (A → World → Type 0) → (World → Type 0) → Outcome A × World → Type 0
Post Q R (done a, w) = Q a w
Post Q R (raised, w) = R w

-- From a state in `P`, `m` returns `a` in a state of `Q a`, or raises in a state of `R`.
pub record Triple {A : Type 0} (P : World → Type 0) (m : M A) (Q : A → World → Type 0)
    (R : World → Type 0) : Type 0 where
  pub at : (w : World) → P w → Post Q R (m w)

module _ {A B : Type 0} {P : World → Type 0} {R : World → Type 0} where
  pub Triple-bind :
      {m : M A} {f : A → M B} (Q : A → World → Type 0) {Q' : B → World → Type 0}
      → Triple P m Q R
      → ((a : A) → Triple (Q a) (f a) Q' R)
      → Triple P (m >>= f) Q' R
  Triple-bind {m} {f} Q {Q'} t k = record { at = λ w h. go (m w) (t.at w h) }
    where
      go : (r : Outcome A × World) → Post Q R r → Post Q' R (continue r.0 f r.1)
      go (done a, w) h = (k a).at w h
      go (raised, w) h = h

module _ {A : Type 0} where
  pub Triple-pure :
      {Q : A → World → Type 0} {R : World → Type 0} (a : A) → Triple (Q a) (pure a) Q R
  Triple-pure a = record { at = λ w h. h }

  pub Triple-if :
      {P : World → Type 0} {Q : A → World → Type 0} {R : World → Type 0} {m n : M A} (b : Bool)
      → Triple P m Q R
      → Triple P n Q R
      → Triple P (if b then m else n) Q R
  Triple-if true t u = t
  Triple-if false t u = u

  pub Triple-gets :
      {P : World → Type 0} {R : World → Type 0} (f : Store → A) → Triple P (gets f) (λ a w. P w) R
  Triple-gets f = record { at = λ w h. h }

  -- A transaction: the result is that of `op`, and otherwise nothing but the faults changes.
  pub Triple-write_for :
      {P : World → Type 0} {Q : A → World → Type 0} {R : World → Type 0}
      (op : Store → Option (A × Store))
      → ((w : World) (a : A) (s : Store)
          → P w
          → op w.store ≡ some (a, s)
          → Q a (record (next w) { store = s }))
      → ((w : World) → P w → R (next w))
      → Triple P (write_for op) Q R
  unfolding write_for
  Triple-write_for {P} {Q} {R} op ok_ bad = record { at = λ w h. go w h (head_fault w.faults) }
    where
      commit :
          (w : World)
          → P w
          → (r : Option (A × Store)) → op w.store ≡ r
          → Post Q R (committed (next w) r)
      commit w h none e = bad w h
      commit w h (some (a, s)) e = ok_ w a s h e

      go :
          (w : World)
          → P w
          → (f : Fault)
          → Post Q R
              (elim f [ works ↦ committed (next w) (op w.store) | fails _ ↦ (raised, next w) ])
      go w h works = commit w h (op w.store) refl
      go w h (fails k) = bad w h

pub Triple-write :
    {P Q R : World → Type 0} (op : Store → Option Store)
    → ((w : World) (s : Store) → P w → op w.store ≡ some s → Q (record (next w) { store = s }))
    → ((w : World) → P w → R (next w))
    → Triple P (write op) (λ _ w. Q w) R
unfolding write
Triple-write {P} {Q} {R} op ok_ bad =
    Triple-write_for (λ s. with_unit (op s)) (λ w a s h e. ok_ w s h (unit_inv (op w.store) a s e))
      bad
  where
    unit_inv :
        (o : Option Store) (a : Unit {0}) (s : Store) → with_unit o ≡ some (a, s) → o ≡ some s
    unit_inv none a s e = cc
    unit_inv (some t) a s e = cc

pub Triple-call :
    {P R : World → Type 0}
    → ((w : World) → P w → P (next w))
    → ((w : World) → P w → R (next w))
    → Triple P call (λ _ w. P w) R
unfolding call
Triple-call {P} {R} ok_ bad = record { at = λ w h. go w h (head_fault w.faults) }
  where
    go :
        (w : World)
        → P w
        → (f : Fault)
        → Post {A = Unit {0}}
            (λ _ w. P w)
            R
            (elim f [ works ↦ (done tt, next w) | fails _ ↦ (raised, next w) ])
    go w h works = ok_ w h
    go w h (fails k) = bad w h
