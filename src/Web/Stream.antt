-- ===== src/Web/Stream.antt =====
-- src/local_graph_rag/web/rag_executor.py: the bridge of a streamed answer. A worker thread puts the
-- texts of `ask_stream_sync` into a bounded queue, and the event loop reads them into the response.
-- A step is what one of the two does between two points where the other may run; which texts the
-- generator has, whether it raises, how long a put waits and when the client leaves is left open.
pub mod Order
pub mod Complete
pub mod Progress
use local_graph_rag.Prelude.{
  ℕ, ◌<◌, ◌≡◌, Bool, true, false, Option, none, some, List, [], ◌∷◌, ◌++◌, length,
}
use local_graph_rag.Prelude.Text.{Str, codes}

-- What goes through the queue: a text, an exception, or None.
pub data Item : Type 0 where
  text : Str → Item
  failure : Item
  finish : Item

-- Where `_run` stands; `_put` is entered when it has passed its test of the cancel event.
pub data Worker : Type 0 where
  generating : List Str → Worker  -- with the texts that the generator has left
  putting : Str → List Str → Worker
  raising : Worker  -- in `except`
  putting_failure : Worker
  closing : Worker  -- in `finally`
  putting_finish : Worker
  finished : Worker

-- Where `rag_stream_response` stands.
pub data Reader : Type 0 where
  reading : Reader
  leaving : Reader  -- past the loop of `_stream_queue_events`
  stopped : Reader  -- past the `yield` of the stop chunk
  closed : Reader
  gone : Reader  -- the client left, and the generator was closed before the stop chunk
  gone_after_stop : Reader  -- or at the `yield` of the stop chunk

-- What the response has sent.
pub data Sent : Type 0 where
  content : Str → Sent
  error_note : Sent
  timeout_note : Sent
  stop_note : Sent
  done_mark : Sent

-- The maxsize of the queue.
abbrev pub queue_size : ℕ
queue_size = 32

pub record Stream : Type 0 where
  pub queue : List Item
  pub cancelled : Bool
  pub worker : Worker
  pub reader : Reader
  pub sent : List Sent

abbrev pub init : List Str → Stream
init texts = record {
  queue = [];
  cancelled = false;
  worker = generating texts;
  reader = reading;
  sent = [];
}

-- `queue.put` is done, and the worker goes on at `w`.
abbrev pub deliver : Item → Worker → Stream → Stream
deliver item w s = record s { queue = s.queue ++ item ∷ []; worker = w }

-- The worker goes on at `w`.
abbrev pub at : Worker → Stream → Stream
at w s = record s { worker = w }

-- The reader sends what it makes of an item, and goes on at `r`.
abbrev pub show : List Sent → Reader → Stream → Stream
show new r s = record s { sent = s.sent ++ new; reader = r }

pub data Step (s : Stream) : Stream → Type 0 where
  -- The generator yields a text, and `_put` is entered.
  yields :
      (t : Str) (ts : List Str)
      → s.worker ≡ generating (t ∷ ts)
      → s.cancelled ≡ false
      → Step s (at (putting t ts) s)
  exhausted : s.worker ≡ generating [] → Step s (at closing s)
  -- The generator or `_put` sees that the event is set.
  sees_cancel :
      (ts : List Str) → s.worker ≡ generating ts → s.cancelled ≡ true → Step s (at closing s)
  raises : (ts : List Str) → s.worker ≡ generating ts → Step s (at raising s)
  puts :
      (t : Str) (ts : List Str)
      → s.worker ≡ putting t ts
      → length s.queue < queue_size
      → Step s (deliver (text t) (generating ts) s)
  -- The wait for the put ran out: the put was cancelled, or was done at that moment.
  put_expires : (t : Str) (ts : List Str) → s.worker ≡ putting t ts → Step s (at closing s)
  put_late :
      (t : Str) (ts : List Str)
      → s.worker ≡ putting t ts
      → length s.queue < queue_size
      → Step s (deliver (text t) closing s)
  hands_failure : s.worker ≡ raising → s.cancelled ≡ false → Step s (at putting_failure s)
  keeps_failure : s.worker ≡ raising → s.cancelled ≡ true → Step s (at closing s)
  puts_failure :
      s.worker ≡ putting_failure → length s.queue < queue_size → Step s (deliver failure closing s)
  failure_expires : s.worker ≡ putting_failure → Step s (at closing s)
  hands_finish : s.worker ≡ closing → s.cancelled ≡ false → Step s (at putting_finish s)
  keeps_finish : s.worker ≡ closing → s.cancelled ≡ true → Step s (at finished s)
  puts_finish :
      s.worker ≡ putting_finish → length s.queue < queue_size → Step s (deliver finish finished s)
  finish_expires : s.worker ≡ putting_finish → Step s (at finished s)
  reads_text :
      (t : Str) (rest : List Item)
      → s.reader ≡ reading
      → s.queue ≡ text t ∷ rest
      → Step s (show (content t ∷ []) reading (record s { queue = rest }))
  reads_failure :
      (rest : List Item)
      → s.reader ≡ reading
      → s.queue ≡ failure ∷ rest
      → Step s (show (error_note ∷ []) leaving (record s { queue = rest }))
  reads_finish :
      (rest : List Item)
      → s.reader ≡ reading
      → s.queue ≡ finish ∷ rest
      → Step s (show [] leaving (record s { queue = rest }))
  read_expires :
      s.reader ≡ reading
      → s.queue ≡ []
      → Step s (show (timeout_note ∷ []) leaving (record s { cancelled = true }))
  -- `finally`, and the stop chunk
  stops :
      s.reader ≡ leaving → Step s (show (stop_note ∷ []) stopped (record s { cancelled = true }))
  closes : s.reader ≡ stopped → Step s (show (done_mark ∷ []) closed s)
  -- The client leaves: the `finally` is run.
  leaves_reading : s.reader ≡ reading → Step s (show [] gone (record s { cancelled = true }))
  leaves_late : s.reader ≡ leaving → Step s (show [] gone (record s { cancelled = true }))
  leaves_last : s.reader ≡ stopped → Step s (show [] gone_after_stop s)
  -- `_watch_disconnect` sets the event.
  watches : s.reader ≡ reading → s.cancelled ≡ false → Step s (record s { cancelled = true })

-- The states of a response whose generator has the given texts.
pub data Reach (texts : List Str) : Stream → Type 0 where
  start : Reach texts (init texts)
  later : {s t : Stream} → Reach texts s → Step s t → Reach texts t

-- The fields of a chunk that are not constant.
pub record Chunk : Type 0 where
  pub delta : Option Str
  pub finish_reason : Option Str

-- `make_stream_chunk`; `dumps` is json.dumps of a chunk.
unfoldable pub make_stream_chunk : (Chunk → Str) → Option Str → Option Str → Str
make_stream_chunk dumps delta finish_reason =
    codes "data: "
    ++ (dumps (record { delta = delta; finish_reason = finish_reason }) ++ codes "\n\n")

-- The line of the response for what is sent.
unfoldable pub event_of : (Chunk → Str) → Sent → Str
unfolding make_stream_chunk
event_of dumps (content t) = make_stream_chunk dumps (some t) none
event_of dumps error_note =
    make_stream_chunk dumps (some (codes "\n\n[Generation error — please retry]")) none
event_of dumps timeout_note =
    make_stream_chunk dumps (some (codes "\n\n[Error: generation timed out]")) none
event_of dumps stop_note = make_stream_chunk dumps none (some (codes "stop"))
event_of dumps done_mark = codes "data: [DONE]\n\n"
