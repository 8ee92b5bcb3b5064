-- ===== src/Web/Stream/Progress.antt =====
-- A streamed response comes to its end.
use local_graph_rag.Prelude.{
  ℕ, suc, ◌+◌, ◌*◌, ◌≤◌, ◌<◌, ◌≡◌, refl, ap, ◌⊎◌, inl, inr, Bool, true, false, Bool-cases, List, [],
  ◌∷◌, length, length-append, arith,
}
use local_graph_rag.Web.Stream.{
  Item, text, failure, finish, Worker, generating, putting, raising, putting_failure, closing,
  putting_finish, finished, Reader, reading, leaving, stopped, closed, gone, gone_after_stop, Sent,
  content, error_note, timeout_note, stop_note, done_mark, Stream, deliver, at, show, Step, yields,
  exhausted, sees_cancel, raises, puts, put_expires, put_late, hands_failure, keeps_failure,
  puts_failure, failure_expires, hands_finish, keeps_finish, puts_finish, finish_expires,
  reads_text, reads_failure, reads_finish, read_expires, stops, closes, leaves_reading, leaves_late,
  leaves_last, watches,
}

-- The steps that the worker has left, and a bound on those of the reader.
abbrev pub work : Worker → ℕ
work (generating ts) = 3 * length ts + 7
work (putting t ts) = 3 * length ts + 9
work raising = 6
work putting_failure = 5
work closing = 3
work putting_finish = 2
work finished = 0

abbrev pub reads : Reader → ℕ
reads reading = 4
reads leaving = 2
reads stopped = 1
reads closed = 0
reads gone = 0
reads gone_after_stop = 0

abbrev pub unset : Bool → ℕ
unset true = 0
unset false = 1

abbrev pub measure : Stream → ℕ
measure s = work s.worker + length s.queue + reads s.reader + unset s.cancelled

unset_le : (b : Bool) → unset true ≤ unset b
unset_le true = omega arith
unset_le false = omega arith

module _ (s : Stream) where
  worker_step : (w w' : Worker) → s.worker ≡ w → work w' < work w → measure (at w' s) < measure s
  worker_step w w' e lt = let f = ap work e in omega arith

  put_step :
      (item : Item) (w w' : Worker)
      → s.worker ≡ w
      → work w' + 1 < work w
      → measure (deliver item w' s) < measure s
  put_step item w w' e lt = let f = ap work e in omega (arith, length-append s.queue (item ∷ []))

  reader_step :
      (new : List Sent) (queue : List Item) (r r' : Reader)
      → s.reader ≡ r
      → length queue + reads r' < length s.queue + reads r
      → measure (show new r' (record s { queue = queue })) < measure s
  reader_step new queue r r' e lt = let f = ap reads e in omega arith

  leave_step :
      (new : List Sent) (r r' : Reader)
      → s.reader ≡ r
      → reads r' < reads r
      → measure (show new r' (record s { cancelled = true })) < measure s
  leave_step new r r' e lt = let f = ap reads e in omega (arith, unset_le s.cancelled)

  Step-lt : {t : Stream} → Step s t → measure t < measure s
  Step-lt (yields t ts e _) = worker_step (generating (t ∷ ts)) (putting t ts) e (omega arith)
  Step-lt (exhausted e) = worker_step (generating []) closing e (omega arith)
  Step-lt (sees_cancel ts e _) = worker_step (generating ts) closing e (omega arith)
  Step-lt (raises ts e) = worker_step (generating ts) raising e (omega arith)
  Step-lt (puts t ts e _) = put_step (text t) (putting t ts) (generating ts) e (omega arith)
  Step-lt (put_expires t ts e) = worker_step (putting t ts) closing e (omega arith)
  Step-lt (put_late t ts e _) = put_step (text t) (putting t ts) closing e (omega arith)
  Step-lt (hands_failure e _) = worker_step raising putting_failure e (omega arith)
  Step-lt (keeps_failure e _) = worker_step raising closing e (omega arith)
  Step-lt (puts_failure e _) = put_step failure putting_failure closing e (omega arith)
  Step-lt (failure_expires e) = worker_step putting_failure closing e (omega arith)
  Step-lt (hands_finish e _) = worker_step closing putting_finish e (omega arith)
  Step-lt (keeps_finish e _) = worker_step closing finished e (omega arith)
  Step-lt (puts_finish e _) = put_step finish putting_finish finished e (omega arith)
  Step-lt (finish_expires e) = worker_step putting_finish finished e (omega arith)
  Step-lt (reads_text t items r q) =
      let f = ap length q in reader_step (content t ∷ []) items reading reading r (omega arith)
  Step-lt (reads_failure items r q) =
      let f = ap length q in reader_step (error_note ∷ []) items reading leaving r (omega arith)
  Step-lt (reads_finish items r q) =
      let f = ap length q in reader_step [] items reading leaving r (omega arith)
  Step-lt (read_expires r _) = leave_step (timeout_note ∷ []) reading leaving r (omega arith)
  Step-lt (stops r) = leave_step (stop_note ∷ []) leaving stopped r (omega arith)
  Step-lt (closes r) = reader_step (done_mark ∷ []) s.queue stopped closed r (omega arith)
  Step-lt (leaves_last r) = reader_step [] s.queue stopped gone_after_stop r (omega arith)
  Step-lt (leaves_reading r) = leave_step [] reading gone r (omega arith)
  Step-lt (leaves_late r) = leave_step [] leaving gone r (omega arith)
  Step-lt (watches _ c) = let f = ap unset c in omega arith

abbrev Next : Stream → Type 0
Next s = (t : Stream) × Step s t

-- The response is closed, or its client left.
abbrev pub HasEnded : Reader → Type 0
HasEnded r = (r ≡ closed) ⊎ ((r ≡ gone) ⊎ (r ≡ gone_after_stop))

-- The worker has run `_run` to its end, and the response has ended.
abbrev pub IsOver : Stream → Type 0
IsOver s = (s.worker ≡ finished) × HasEnded s.reader

worker-Next : (s : Stream) (w : Worker) → s.worker ≡ w → (w ≡ finished) ⊎ Next s
worker-Next s (generating []) e = inr (at closing s, exhausted e)
worker-Next s (generating (t ∷ ts)) e = elim (Bool-cases s.cancelled) [
  | inl c ↦ inr (at closing s, sees_cancel (t ∷ ts) e c)
  | inr c ↦ inr (at (putting t ts) s, yields t ts e c)
]
worker-Next s (putting t ts) e = inr (at closing s, put_expires t ts e)
worker-Next s raising e = elim (Bool-cases s.cancelled) [
  | inl c ↦ inr (at closing s, keeps_failure e c)
  | inr c ↦ inr (at putting_failure s, hands_failure e c)
]
worker-Next s putting_failure e = inr (at closing s, failure_expires e)
worker-Next s closing e = elim (Bool-cases s.cancelled) [
  | inl c ↦ inr (at finished s, keeps_finish e c)
  | inr c ↦ inr (at putting_finish s, hands_finish e c)
]
worker-Next s putting_finish e = inr (at finished s, finish_expires e)
worker-Next s finished e = inl refl

read-Next : (s : Stream) (queue : List Item) → s.reader ≡ reading → s.queue ≡ queue → Next s
read-Next s [] r q = (_, read_expires r q)
read-Next s (text t ∷ items) r q = (_, reads_text t items r q)
read-Next s (failure ∷ items) r q = (_, reads_failure items r q)
read-Next s (finish ∷ items) r q = (_, reads_finish items r q)

reader-Next : (s : Stream) (r : Reader) → s.reader ≡ r → HasEnded r ⊎ Next s
reader-Next s reading e = inr (read-Next s s.queue e refl)
reader-Next s leaving e = inr (_, stops e)
reader-Next s stopped e = inr (_, closes e)
reader-Next s closed e = inl (inl refl)
reader-Next s gone e = inl (inr (inl refl))
reader-Next s gone_after_stop e = inl (inr (inr refl))

Next-or_IsOver : (s : Stream) → IsOver s ⊎ Next s
Next-or_IsOver s = elim (worker-Next s s.worker refl) [
  | inr next ↦ inr next
  | inl w ↦ elim (reader-Next s s.reader refl) [ inr next ↦ inr next | inl r ↦ inl (w, r) ]
]

-- A run of so many steps.
pub data Runs (s : Stream) : ℕ → Stream → Type 0 where
  none_yet : Runs s 0 s
  one_more : {n : ℕ} {t u : Stream} → Runs s n t → Step t u → Runs s (suc n) u

-- A run from a stream is at most as long as its measure, and where it cannot go on the worker has
-- finished, and the response is closed or its client left.
pub Runs-end :
    {s t : Stream} {n : ℕ}
    → Runs s n t
    → (n + measure t ≤ measure s) × (IsOver t ⊎ ((u : Stream) × Step t u))
Runs-end {s} {t} runs = (bounded runs, Next-or_IsOver t)
  where
    bounded : {u : Stream} {n : ℕ} → Runs s n u → n + measure u ≤ measure s
    bounded none_yet = omega arith
    bounded (one_more {t = v} runs st) = omega (arith, bounded runs, Step-lt v st)
