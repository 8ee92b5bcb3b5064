-- ===== src/Ingest/World.antt =====
-- The state of an indexing run: the SQLite database, the points in the Qdrant collection, and what
-- the services will do with the calls to come. A method may raise; what it wrote before stays.
pub mod Triple
use local_graph_rag.Prelude.{
  ℕ, zero, suc, Bool, true, false, not, Option, none, some, List, [], ◌∷◌, ◌++◌, map, keep, take,
  contains, nat_eq, list_eq, ◌==◌, ◌≡◌, if◌then◌else◌, refl,
}
use local_graph_rag.Prelude.Text.{Str}
use local_graph_rag.Graph.Tables.{Store}

-- A `PointStruct`, without the numbers of its vector, which are only stored.
pub record Point : Type 0 where
  pub id : Str
  pub text : Str
  pub filepath : Str
  pub chunk_index : ℕ
  pub def_name : Option Str

-- What happens to a call of a service: it works, or it raises after it was applied to the first `k`
-- points (a transaction of SQLite is then rolled back).
pub data Fault : Type 0 where
  works : Fault
  fails : ℕ → Fault

pub record World : Type 0 where
  pub store : Store
  pub vectors : List Point
  pub faults : List Fault

pub data Outcome (A : Type 0) : Type 0 where
  done : A → Outcome A
  raised : Outcome A

abbrev pub M : Type 0 → Type 0
M A = World → Outcome A × World

abbrev pub pure : {A : Type 0} → A → M A
pure a w = (done a, w)

abbrev pub raise : {A : Type 0} → M A
raise w = (raised, w)

abbrev pub continue : {A B : Type 0} → Outcome A → (A → M B) → M B
continue (done a) f w = f a w
continue raised f w = (raised, w)

infixl 5 ◌>>=◌ ◌>>◌
abbrev pub ◌>>=◌ : {A B : Type 0} → M A → (A → M B) → M B
◌>>=◌ m f w = continue (m w).0 f (m w).1

abbrev pub ◌>>◌ : {A B : Type 0} → M A → M B → M B
m >> n = m >>= λ _. n

abbrev pub gets : {A : Type 0} → (Store → A) → M A
gets f w = (done (f w.store), w)

-- The next fault; a run that is out of faults works.
abbrev pub head_fault : List Fault → Fault
head_fault [] = works
head_fault (f ∷ fs) = f

abbrev pub rest_faults : List Fault → List Fault
rest_faults [] = []
rest_faults (f ∷ fs) = fs

abbrev pub next : World → World
next w = record w { faults = rest_faults w.faults }

-- One write transaction with a result.
abbrev pub committed : {A : Type 0} → World → Option (A × Store) → Outcome A × World
committed w none = (raised, w)
committed w (some (a, s)) = (done a, record w { store = s })

unfoldable pub write_for : {A : Type 0} → (Store → Option (A × Store)) → M A
write_for op w = elim (head_fault w.faults) [
  | works ↦ committed (next w) (op w.store)
  | fails _ ↦ (raised, next w)
]

abbrev pub with_unit : Option Store → Option (Unit {0} × Store)
with_unit none = none
with_unit (some s) = some (tt, s)

-- One write transaction.
unfoldable pub write : (Store → Option Store) → M (Unit {0})
unfolding write_for
write op = write_for (λ s. with_unit (op s))

-- The points without those of the given ids.
unfoldable pub without_ids : List Str → List Point → List Point
without_ids ids ps = keep (λ p. not (contains p.id ids)) ps

unfoldable pub put_points : List Point → List Point → List Point
unfolding without_ids
put_points new ps = without_ids (map (λ p. p.id) new) ps ++ new

-- client.delete
unfoldable pub delete_points : List Str → M (Unit {0})
unfolding without_ids
delete_points ids w = elim (head_fault w.faults) [
  | works ↦ (done tt, record (next w) { vectors = without_ids ids w.vectors })
  | fails k ↦ (raised, record (next w) { vectors = without_ids (take k ids) w.vectors })
]

-- client.upsert
unfoldable pub upsert_points : List Point → M (Unit {0})
unfolding put_points
upsert_points new w = elim (head_fault w.faults) [
  | works ↦ (done tt, record (next w) { vectors = put_points new w.vectors })
  | fails k ↦ (raised, record (next w) { vectors = put_points (take k new) w.vectors })
]

-- A call that changes nothing here and may raise (embed_batch).
unfoldable pub call : M (Unit {0})
call w = elim (head_fault w.faults) [ works ↦ (done tt, next w) | fails _ ↦ (raised, next w) ]
