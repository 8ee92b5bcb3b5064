-- ===== src/Web/Stream/Complete.antt =====
-- A streamed response of which nothing went wrong.
use mathlib.Core.List.{append-nil, append_assoc, map-append}
use local_graph_rag.Prelude.{
  ◌≡◌, refl, sym, ap, ◌∙◌, ◌⊎◌, inl, inr, false, List, [], ◌∷◌, ◌++◌, map,
}
use local_graph_rag.Prelude.Text.{Str}
use local_graph_rag.Web.Stream.{
  Item, text, failure, finish, Worker, generating, putting, raising, putting_failure, closing,
  putting_finish, finished, Reader, reading, leaving, stopped, closed, Sent, content, stop_note,
  done_mark, Stream, at, Step, yields, exhausted, sees_cancel, raises, puts, put_expires, put_late,
  hands_failure, keeps_failure, puts_failure, failure_expires, hands_finish, keeps_finish,
  puts_finish, finish_expires, reads_text, reads_failure, reads_finish, read_expires, stops, closes,
  leaves_reading, leaves_late, leaves_last, watches, Reach, start, later,
}
use local_graph_rag.Web.Stream.Order.{ending}

-- Neither does the generator raise, nor a wait run out, nor the client leave.
abbrev pub IsCalm : {s t : Stream} → Step s t → Type 0
IsCalm (raises _ _) = ⊥
IsCalm (put_expires _ _ _) = ⊥
IsCalm (put_late _ _ _ _) = ⊥
IsCalm (failure_expires _) = ⊥
IsCalm (finish_expires _) = ⊥
IsCalm (read_expires _ _) = ⊥
IsCalm (leaves_reading _) = ⊥
IsCalm (leaves_late _) = ⊥
IsCalm (leaves_last _) = ⊥
IsCalm (watches _ _) = ⊥
IsCalm _ = Unit

abbrev pub AllCalm : {texts : List Str} {s : Stream} → Reach texts s → Type 0
AllCalm start = Unit
AllCalm (later r st) = AllCalm r × IsCalm st

abbrev left_of : Worker → List Str
left_of (generating ts) = ts
left_of (putting t ts) = t ∷ ts
left_of _ = []

abbrev tail : Worker → List Item
tail finished = finish ∷ []
tail _ = []

abbrev IsCalmWorker : Worker → Type 0
IsCalmWorker raising = ⊥
IsCalmWorker putting_failure = ⊥
IsCalmWorker _ = Unit

-- While the reader reads: what was sent, the texts in the queue and those to come are the texts.
-- After it: all was sent.
data Calm (texts : List Str) (s : Stream) : Type 0 where
  under_way :
      (shown waiting : List Str)
      → s.reader ≡ reading
      → s.cancelled ≡ false
      → s.sent ≡ map content shown
      → s.queue ≡ map text waiting ++ tail s.worker
      → texts ≡ shown ++ (waiting ++ left_of s.worker)
      → IsCalmWorker s.worker
      → Calm texts s
  ended :
      (s.reader ≡ leaving) ⊎ ((s.reader ≡ stopped) ⊎ (s.reader ≡ closed))
      → s.worker ≡ finished
      → s.sent ≡ map content texts ++ ending s.reader
      → Calm texts s

tail_text : (w : Worker) (t : Str) (rest : List Item) → tail w ≡ text t ∷ rest → ⊥
tail_text finished t rest e = cc e
tail_text (generating _) t rest e = cc e
tail_text (putting _ _) t rest e = cc e
tail_text raising t rest e = cc e
tail_text putting_failure t rest e = cc e
tail_text closing t rest e = cc e
tail_text putting_finish t rest e = cc e

tail_failure : (w : Worker) (rest : List Item) → tail w ≡ failure ∷ rest → ⊥
tail_failure finished rest e = cc e
tail_failure (generating _) rest e = cc e
tail_failure (putting _ _) rest e = cc e
tail_failure raising rest e = cc e
tail_failure putting_failure rest e = cc e
tail_failure closing rest e = cc e
tail_failure putting_finish rest e = cc e

tail_finish : (w : Worker) (rest : List Item) → tail w ≡ finish ∷ rest → w ≡ finished
tail_finish finished rest e = refl
tail_finish (generating _) rest e = absurd (cc e)
tail_finish (putting _ _) rest e = absurd (cc e)
tail_finish raising rest e = absurd (cc e)
tail_finish putting_failure rest e = absurd (cc e)
tail_finish closing rest e = absurd (cc e)
tail_finish putting_finish rest e = absurd (cc e)

-- The worker goes from `w` to `w'` and delivers nothing.
moves :
    {texts : List Str} {s : Stream} (w w' : Worker)
    → s.worker ≡ w
    → ((w ≡ finished) → ⊥)
    → tail w ≡ tail w'
    → left_of w ≡ left_of w'
    → IsCalmWorker w'
    → Calm texts s
    → Calm texts (at w' s)
moves w w' at_ busy same_tail same_left calm (under_way shown waiting r c e q o _) =
    under_way shown waiting r c e (q ∙ ap (λ i. map text waiting ++ i) (ap tail at_ ∙ same_tail))
      (o ∙ ap (λ l. shown ++ (waiting ++ l)) (ap left_of at_ ∙ same_left)) calm
moves w w' at_ busy same_tail same_left calm (ended r f e) = absurd (busy (sym at_ ∙ f))

past : {r : Reader} → (r ≡ leaving) ⊎ ((r ≡ stopped) ⊎ (r ≡ closed)) → r ≡ reading → ⊥
past (inl e) f = cc (sym e ∙ f)
past (inr (inl e)) f = cc (sym e ∙ f)
past (inr (inr e)) f = cc (sym e ∙ f)

head_of : (u t : Str) (xs ys : List Item) → text u ∷ xs ≡ text t ∷ ys → t ≡ u
head_of u t xs ys e = cc e

tail_of : (u t : Str) (xs ys : List Item) → text u ∷ xs ≡ text t ∷ ys → ys ≡ xs
tail_of u t xs ys e = cc e

all_sent :
    {texts : List Str} {sent : List Sent} (shown : List Str)
    → sent ≡ map content shown ++ []
    → texts ≡ shown ++ []
    → sent ++ [] ≡ map content texts ++ []
all_sent {sent} shown e o =
    append-nil sent ∙ e ∙ ap (λ l. map content l ++ []) (sym (o ∙ append-nil shown))

Step-Calm :
    {texts : List Str} {s t : Stream} (st : Step s t) → IsCalm st → Calm texts s → Calm texts t
Step-Calm (yields t ts at_ _) h k =
    moves (generating (t ∷ ts)) (putting t ts) at_ (λ e. cc e) refl refl tt k
Step-Calm (exhausted at_) h k = moves (generating []) closing at_ (λ e. cc e) refl refl tt k
Step-Calm (sees_cancel ts at_ c') h (under_way shown waiting r c e q o w) = absurd (cc (sym c ∙ c'))
Step-Calm (sees_cancel ts at_ c') h (ended r f e) = absurd (cc (sym at_ ∙ f))
Step-Calm (puts t ts at_ _) h (under_way shown waiting r c e q o w) =
    under_way shown (waiting ++ t ∷ []) r c e
      (ap (λ i. i ++ text t ∷ []) (q ∙ ap (λ v. map text waiting ++ tail v) at_)
        ∙ simp (map-append, append-nil))
      (o
        ∙ ap (λ v. shown ++ (waiting ++ left_of v)) at_
        ∙ ap (λ l. shown ++ l) (sym (append_assoc waiting (t ∷ []) ts)))
      tt
Step-Calm (puts t ts at_ _) h (ended r f e) = absurd (cc (sym at_ ∙ f))
Step-Calm (hands_failure at_ _) h (under_way shown waiting r c e q o w) = absurd (rw at_ at w)
Step-Calm (hands_failure at_ _) h (ended r f e) = absurd (cc (sym at_ ∙ f))
Step-Calm (keeps_failure at_ _) h (under_way shown waiting r c e q o w) = absurd (rw at_ at w)
Step-Calm (keeps_failure at_ _) h (ended r f e) = absurd (cc (sym at_ ∙ f))
Step-Calm (puts_failure at_ _) h (under_way shown waiting r c e q o w) = absurd (rw at_ at w)
Step-Calm (puts_failure at_ _) h (ended r f e) = absurd (cc (sym at_ ∙ f))
Step-Calm (hands_finish at_ _) h k = moves closing putting_finish at_ (λ e. cc e) refl refl tt k
Step-Calm (keeps_finish at_ c') h (under_way shown waiting r c e q o w) = absurd (cc (sym c ∙ c'))
Step-Calm (keeps_finish at_ c') h (ended r f e) = absurd (cc (sym at_ ∙ f))
Step-Calm (puts_finish at_ _) h (under_way shown waiting r c e q o w) =
    under_way shown waiting r c e
      (ap (λ i. i ++ finish ∷ [])
        (q ∙ ap (λ v. map text waiting ++ tail v) at_ ∙ append-nil (map text waiting)))
      (o ∙ ap (λ v. shown ++ (waiting ++ left_of v)) at_) tt
Step-Calm (puts_finish at_ _) h (ended r f e) = absurd (cc (sym at_ ∙ f))
Step-Calm {s} (reads_text t items r' own) h (under_way shown [] r c e q o w) =
    absurd (tail_text s.worker t items (sym q ∙ own))
Step-Calm {s} (reads_text t items r' own) h (under_way shown (u ∷ waiting) r c e q o w) =
    under_way (shown ++ u ∷ []) waiting refl c
      (ap (λ i. i ++ content t ∷ []) e
        ∙ ap (λ v. map content shown ++ content v ∷ [])
            (head_of u t (map text waiting ++ tail s.worker) items (sym q ∙ own))
        ∙ sym (map-append content shown (u ∷ [])))
      (tail_of u t (map text waiting ++ tail s.worker) items (sym q ∙ own))
      (o ∙ sym (append_assoc shown (u ∷ []) (waiting ++ left_of s.worker))) w
Step-Calm (reads_text t items r' own) h (ended r f e) = absurd (past r r')
Step-Calm {s} (reads_failure items r' own) h (under_way shown [] r c e q o w) =
    absurd (tail_failure s.worker items (sym q ∙ own))
Step-Calm (reads_failure items r' own) h (under_way shown (u ∷ waiting) r c e q o w) =
    absurd (cc (sym q ∙ own))
Step-Calm (reads_failure items r' own) h (ended r f e) = absurd (past r r')
Step-Calm {s} (reads_finish items r' own) h (under_way shown [] r c e q o w) =
    let f = tail_finish s.worker items (sym q ∙ own) in
    ended (inl refl) f (
      all_sent shown (e ∙ sym (append-nil (map content shown)))
        (o ∙ ap (λ v. shown ++ left_of v) f))
Step-Calm (reads_finish items r' own) h (under_way shown (u ∷ waiting) r c e q o w) =
    absurd (cc (sym q ∙ own))
Step-Calm (reads_finish items r' own) h (ended r f e) = absurd (past r r')
Step-Calm (stops r') h (under_way shown waiting r c e q o w) = absurd (cc (sym r ∙ r'))
Step-Calm {texts} (stops r') h (ended r f e) = ended (inr (inl refl)) f (
    ap (λ i. i ++ stop_note ∷ [])
      (e ∙ ap (λ v. map content texts ++ ending v) r' ∙ append-nil (map content texts)))
Step-Calm (closes r') h (under_way shown waiting r c e q o w) = absurd (cc (sym r ∙ r'))
Step-Calm {texts} (closes r') h (ended r f e) = ended (inr (inr refl)) f (
    ap (λ i. i ++ done_mark ∷ []) (e ∙ ap (λ v. map content texts ++ ending v) r')
    ∙ append_assoc (map content texts) (stop_note ∷ []) (done_mark ∷ []))
Step-Calm (leaves_last r') h k = absurd h
Step-Calm (raises ts at_) h k = absurd h
Step-Calm (put_expires t ts at_) h k = absurd h
Step-Calm (put_late t ts at_ room) h k = absurd h
Step-Calm (failure_expires at_) h k = absurd h
Step-Calm (finish_expires at_) h k = absurd h
Step-Calm (read_expires r' own) h k = absurd h
Step-Calm (leaves_reading r') h k = absurd h
Step-Calm (leaves_late r') h k = absurd h
Step-Calm (watches r' c') h k = absurd h

Reach-Calm : {texts : List Str} {s : Stream} (r : Reach texts s) → AllCalm r → Calm texts s
Reach-Calm {texts} start h = under_way [] [] refl refl refl refl refl tt
Reach-Calm (later r st) h = Step-Calm st h.1 (Reach-Calm r h.0)

sent_all :
    {texts : List Str} {s : Stream}
    → Calm texts s
    → s.reader ≡ closed
    → s.sent ≡ map content texts ++ stop_note ∷ done_mark ∷ []
sent_all (under_way shown waiting r c e q o w) at_ = absurd (cc (sym r ∙ at_))
sent_all {texts} (ended r f e) at_ = e ∙ ap (λ v. map content texts ++ ending v) at_

-- If the generator does not raise, no wait runs out and the client stays, a response that is closed
-- has sent every text that the generator yields, in order, the stop chunk, the end mark, and no more.
pub closed_complete :
    {texts : List Str} {s : Stream} (r : Reach texts s)
    → AllCalm r
    → s.reader ≡ closed
    → s.sent ≡ map content texts ++ stop_note ∷ done_mark ∷ []
closed_complete r h = sent_all (Reach-Calm r h)
