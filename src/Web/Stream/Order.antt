-- ===== src/Web/Stream/Order.antt =====
-- What a streamed response holds at every moment.
use mathlib.Core.List.{append-nil, append_assoc, map-append}
use local_graph_rag.Prelude.{
  ◌≤◌, ◌<◌, ◌≡◌, refl, sym, ap, ◌∙◌, ◌⊎◌, inl, inr, Bool, true, List, [], ◌∷◌, ◌++◌, map, length,
  length-append, arith,
}
use local_graph_rag.Prelude.Text.{Str}
use local_graph_rag.Web.Stream.{
  Item, text, failure, finish, Worker, generating, putting, raising, putting_failure, closing,
  putting_finish, finished, Reader, reading, leaving, stopped, closed, gone, gone_after_stop, Sent,
  content, error_note, timeout_note, stop_note, done_mark, queue_size, Stream, deliver, at, show,
  Step, yields, exhausted, sees_cancel, raises, puts, put_expires, put_late, hands_failure,
  keeps_failure, puts_failure, failure_expires, hands_finish, keeps_finish, puts_finish,
  finish_expires, reads_text, reads_failure, reads_finish, read_expires, stops, closes,
  leaves_reading, leaves_late, leaves_last, watches, Reach, start, later,
}

-- The texts in the queue.
abbrev pub queued : List Item → List Str
queued [] = []
queued (text t ∷ items) = t ∷ queued items
queued (failure ∷ items) = queued items
queued (finish ∷ items) = queued items

-- What the worker may still put: `rest` is that while it can put texts.
abbrev pub Left : Worker → List Str → Type 0
Left (generating ts) rest = rest ≡ ts
Left (putting t ts) rest = rest ≡ t ∷ ts
Left _ rest = Unit

-- At most one note, and none while the reader reads.
abbrev pub IsNote : Reader → List Sent → Type 0
IsNote reading note = note ≡ []
IsNote _ note = (note ≡ []) ⊎ ((note ≡ error_note ∷ []) ⊎ (note ≡ timeout_note ∷ []))

abbrev pub ending : Reader → List Sent
ending closed = stop_note ∷ done_mark ∷ []
ending stopped = stop_note ∷ []
ending gone_after_stop = stop_note ∷ []
ending _ = []

-- The response is `shown`, a note and an ending; `shown`, the queue and `rest` are the texts.
pub record Follows (texts : List Str) (s : Stream) : Type 0 where
  pub room : length s.queue ≤ queue_size
  pub shown : List Str
  pub note : List Sent
  pub rest : List Str
  pub in_order : texts ≡ shown ++ (queued s.queue ++ rest)
  pub left : Left s.worker rest
  pub as_sent : s.sent ≡ map content shown ++ (note ++ ending s.reader)
  pub is_note : IsNote s.reader note

queued-append : (xs ys : List Item) → queued (xs ++ ys) ≡ queued xs ++ queued ys
queued-append [] ys = refl
queued-append (text t ∷ xs) ys = ap (λ q. t ∷ q) (queued-append xs ys)
queued-append (failure ∷ xs) ys = queued-append xs ys
queued-append (finish ∷ xs) ys = queued-append xs ys

-- A step of the worker that puts no text.
worker_step :
    {texts : List Str} {s : Stream} (f : Follows texts s) (w : Worker)
    → Left w f.rest
    → Follows texts (at w s)
worker_step f w left = record {
  room = f.room;
  shown = f.shown;
  note = f.note;
  rest = f.rest;
  in_order = f.in_order;
  left = left;
  as_sent = f.as_sent;
  is_note = f.is_note;
}

-- A put of an item: `rest` is what the worker has left after it.
put_step :
    {texts : List Str} {s : Stream} (f : Follows texts s) (item : Item) (w : Worker)
    (rest : List Str)
    → length s.queue < queue_size
    → queued (item ∷ []) ++ rest ≡ f.rest
    → Left w rest
    → Follows texts (deliver item w s)
put_step {s} f item w rest room e left = record {
  room = omega (arith, length-append s.queue (item ∷ []));
  shown = f.shown;
  note = f.note;
  rest = rest;
  in_order =
      f.in_order
      ∙ ap (λ r. f.shown ++ (queued s.queue ++ r)) (sym e)
      ∙ ap (λ q. f.shown ++ q) (simp (queued-append, append_assoc));
  left = left;
  as_sent = f.as_sent;
  is_note = f.is_note;
}

-- A step of the reader that sends no text: `note` is the new note.
reader_step :
    {texts : List Str} {s : Stream} (f : Follows texts s) (queue : List Item) (cancelled : Bool)
    (r : Reader) (note new : List Sent)
    → length queue ≤ queue_size
    → queued queue ≡ queued s.queue
    → note ++ ending r ≡ (f.note ++ ending s.reader) ++ new
    → IsNote r note
    → Follows texts (show new r (record s { queue = queue; cancelled = cancelled }))
reader_step {s} f queue cancelled r note new room same e is_note = record {
  room = room;
  shown = f.shown;
  note = note;
  rest = f.rest;
  in_order = f.in_order ∙ ap (λ q. f.shown ++ (q ++ f.rest)) (sym same);
  left = f.left;
  as_sent =
      ap (λ t. t ++ new) f.as_sent
      ∙ append_assoc (map content f.shown) (f.note ++ ending s.reader) new
      ∙ ap (λ t. map content f.shown ++ t) (sym e);
  is_note = is_note;
}

le_of_cons :
    (item : Item) (items : List Item)
    → length (item ∷ items) ≤ queue_size
    → length items ≤ queue_size
le_of_cons item items h = omega arith

-- While the reader reads, nothing follows the texts.
silent :
    {texts : List Str} {s : Stream}
    → s.reader ≡ reading
    → (f : Follows texts s) → f.note ++ ending s.reader ≡ []
silent {s} at_ f = rw at_ (rw (rw at_ at f.is_note) refl)

plain :
    {texts : List Str} {s : Stream}
    → s.reader ≡ reading
    → (f : Follows texts s)
    → map content f.shown ++ (f.note ++ ending s.reader) ≡ map content f.shown
plain at_ f = ap (λ q. map content f.shown ++ q) (silent at_ f) ∙ append-nil (map content f.shown)

one_more :
    (shown : List Str) (t : Str)
    → map content shown ++ content t ∷ [] ≡ map content (shown ++ t ∷ []) ++ []
one_more shown t = simp (map-append, append-nil)

Step-Follows : {texts : List Str} {s t : Stream} → Step s t → Follows texts s → Follows texts t
Step-Follows {s} (yields t ts at_ _) f = worker_step f (putting t ts) (rw at_ at f.left)
Step-Follows (exhausted at_) f = worker_step f closing tt
Step-Follows (sees_cancel ts at_ _) f = worker_step f closing tt
Step-Follows (raises ts at_) f = worker_step f raising tt
Step-Follows (puts t ts at_ room) f =
    put_step f (text t) (generating ts) ts room (sym (rw at_ at f.left)) refl
Step-Follows (put_expires t ts at_) f = worker_step f closing tt
Step-Follows (put_late t ts at_ room) f =
    put_step f (text t) closing ts room (sym (rw at_ at f.left)) tt
Step-Follows (hands_failure at_ _) f = worker_step f putting_failure tt
Step-Follows (keeps_failure at_ _) f = worker_step f closing tt
Step-Follows (puts_failure at_ room) f = put_step f failure closing f.rest room refl tt
Step-Follows (failure_expires at_) f = worker_step f closing tt
Step-Follows (hands_finish at_ _) f = worker_step f putting_finish tt
Step-Follows (keeps_finish at_ _) f = worker_step f finished tt
Step-Follows (puts_finish at_ room) f = put_step f finish finished f.rest room refl tt
Step-Follows (finish_expires at_) f = worker_step f finished tt
Step-Follows {texts} {s} (reads_text t items at_ own) f = record {
  room = le_of_cons (text t) items (rw own at f.room);
  shown = f.shown ++ t ∷ [];
  note = [];
  rest = f.rest;
  in_order =
      f.in_order
      ∙ ap (λ q. f.shown ++ (queued q ++ f.rest)) own
      ∙ sym (append_assoc f.shown (t ∷ []) (queued items ++ f.rest));
  left = f.left;
  as_sent = ap (λ q. q ++ content t ∷ []) (f.as_sent ∙ plain at_ f) ∙ one_more f.shown t;
  is_note = refl;
}
Step-Follows {s} (reads_failure items at_ own) f =
    reader_step f items s.cancelled leaving (error_note ∷ []) (error_note ∷ [])
      (le_of_cons failure items (rw own at f.room)) (sym (ap queued own))
      (ap (λ q. q ++ error_note ∷ []) (sym (silent at_ f))) (inr (inl refl))
Step-Follows {s} (reads_finish items at_ own) f =
    reader_step f items s.cancelled leaving [] [] (le_of_cons finish items (rw own at f.room))
      (sym (ap queued own)) (ap (λ q. q ++ []) (sym (silent at_ f))) (inl refl)
Step-Follows {s} (read_expires at_ own) f =
    reader_step f s.queue true leaving (timeout_note ∷ []) (timeout_note ∷ []) f.room refl
      (ap (λ q. q ++ timeout_note ∷ []) (sym (silent at_ f))) (inr (inr refl))
Step-Follows {s} (stops at_) f =
    reader_step f s.queue true stopped f.note (stop_note ∷ []) f.room refl
      (rw at_ (simp append-nil)) (rw at_ at f.is_note)
Step-Follows {s} (closes at_) f =
    reader_step f s.queue s.cancelled closed f.note (done_mark ∷ []) f.room refl
      (rw at_ (sym (append_assoc f.note (stop_note ∷ []) (done_mark ∷ [])))) (rw at_ at f.is_note)
Step-Follows {s} (leaves_last at_) f =
    reader_step f s.queue s.cancelled gone_after_stop f.note [] f.room refl
      (rw at_ (sym (append-nil (f.note ++ stop_note ∷ [])))) (rw at_ at f.is_note)
Step-Follows {s} (leaves_reading at_) f =
    reader_step f s.queue true gone [] [] f.room refl (ap (λ q. q ++ []) (sym (silent at_ f)))
      (inl refl)
Step-Follows {s} (leaves_late at_) f =
    reader_step f s.queue true gone f.note [] f.room refl (rw at_ (simp append-nil))
      (rw at_ at f.is_note)
Step-Follows (watches at_ _) f = record {
  room = f.room;
  shown = f.shown;
  note = f.note;
  rest = f.rest;
  in_order = f.in_order;
  left = f.left;
  as_sent = f.as_sent;
  is_note = f.is_note;
}

-- At every moment the queue holds at most 32 items. The response is texts that the generator
-- yielded, from the first on and in order, without a gap; after them comes at most one note of an
-- error or a timeout, and then nothing but the stop chunk and the end mark. The texts in the queue follow
-- those sent, and what the worker has left follows these.
pub Reach-Follows : {texts : List Str} {s : Stream} → Reach texts s → Follows texts s
Reach-Follows {texts} start = record {
  room = omega arith;
  shown = [];
  note = [];
  rest = texts;
  in_order = refl;
  left = refl;
  as_sent = refl;
  is_note = refl;
}
Reach-Follows (later r st) = Step-Follows st (Reach-Follows r)
