-- ===== src/Tests/Stream.antt =====
-- A short streamed answer, and a request on a server with one permit.
use local_graph_rag.Prelude.{
  refl, true, false, List, [], ◌∷◌, ◌++◌, map, is_empty, arith, if◌then◌else◌, ◌⊎◌, ◌≤◌, ◌+◌, ◌≡◌,
}
use local_graph_rag.Prelude.Text.{Str, codes}
use local_graph_rag.Web.Stream.{
  text, generating, finished, reading, leaving, closed, content, stop_note, done_mark, Stream, Step,
  yields, exhausted, puts, hands_finish, puts_finish, reads_text, reads_finish, stops, closes,
  Reach, start, later, Chunk, event_of, make_stream_chunk,
}
use local_graph_rag.Web.Stream.Order.{Follows, Reach-Follows}
use local_graph_rag.Web.Stream.Complete.{AllCalm, closed_complete}
use local_graph_rag.Web.Stream.Progress.{measure, IsOver, none_yet, one_more, Runs-end}
use local_graph_rag.Web.Capacity.{
  waiting, running, queueing, no_job, submits, Call, Server, arrived, arrives, moves,
}
use local_graph_rag.Web.Capacity as Capacity
use local_graph_rag.Web.Capacity.Permits.{Conserves, Reach-Conserves}

abbrev one_text : List Str
one_text = codes "a" ∷ []

abbrev put_one : Stream
put_one = record {
  queue = text (codes "a") ∷ [];
  cancelled = false;
  worker = generating [];
  reader = reading;
  sent = [];
}

to_put : Reach one_text put_one
to_put =
    later (later start (yields (codes "a") [] refl refl)) (puts (codes "a") [] refl (omega arith))

abbrev all_read : Stream
all_read = record {
  queue = [];
  cancelled = false;
  worker = finished;
  reader = leaving;
  sent = content (codes "a") ∷ [];
}

abbrev all_closed : Stream
all_closed = record {
  queue = [];
  cancelled = true;
  worker = finished;
  reader = closed;
  sent = content (codes "a") ∷ stop_note ∷ done_mark ∷ [];
}

abbrev to_read : Reach one_text all_read
to_read =
    later
      (later
        (later
          (later
            (later
              (later (later start (yields (codes "a") [] refl refl))
                (puts (codes "a") [] refl (omega arith)))
              (reads_text (codes "a") [] refl refl))
            (exhausted refl))
          (hands_finish refl refl))
        (puts_finish refl (omega arith)))
      (reads_finish [] refl refl)

abbrev to_close : Reach one_text all_closed
to_close = later (later to_read (stops refl)) (closes refl)

Reach-Follows_example : Follows one_text put_one
Reach-Follows_example = Reach-Follows to_put

closed_complete_example : all_closed.sent ≡ map content one_text ++ stop_note ∷ done_mark ∷ []
closed_complete_example = closed_complete to_close calm refl
  where
    calm : AllCalm to_close
    calm = (((((((((tt, tt), tt), tt), tt), tt), tt), tt), tt), tt)

Runs-end_example :
    (2 + measure all_closed ≤ measure all_read)
    × (IsOver all_closed ⊎ ((u : Stream) × Step all_closed u))
Runs-end_example =
    Runs-end {s = all_read} {t = all_closed}
      (one_more (one_more none_yet (stops refl)) (closes refl))

stop_event :
    event_of (λ (c : Chunk). if is_empty (codes "") then codes "{}" else codes "") stop_note
    ≡ codes "data: {}\n\n"
unfolding event_of make_stream_chunk
stop_event = refl

abbrev busy : Server
busy = record {
  permits = 0;
  calls = record { client = waiting; job = running; cancelled = false } ∷ [];
}

abbrev one_call : Server
one_call = record { permits = 1; calls = arrived ∷ [] }

to_arrived : Capacity.Reach 1 one_call
to_arrived = Capacity.later Capacity.start (arrives refl refl)

to_busy : Capacity.Reach 1 busy
to_busy = Capacity.later to_arrived (
    moves [] [] arrived (record { client = waiting; job = running; cancelled = false }) refl
      (submits refl (omega arith) refl refl) refl)

Reach-Conserves_example : Conserves 1 busy
Reach-Conserves_example = Reach-Conserves to_busy
