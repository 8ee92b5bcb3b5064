-- ===== src/Rag/Generation.antt =====
-- src/local_graph_rag/rag/ollama_client.py: the request body, the slot that bounds generations,
-- `generate` and `stream_generate`.
pub mod Acquire
pub mod Lines
use local_graph_rag.Prelude.{
  ℕ, zero, suc, ◌+◌, ◌-◌, Bool, true, false, not, ◌&&◌, Option, none, some, List, [], ◌∷◌, min, leb,
  is_empty, nat_eqb, nat_eq, list_eq, ◌==◌, if◌then◌else◌,
}
use local_graph_rag.Prelude.Text.{Str, codes}
use local_graph_rag.Outside.{
  Json, null, bool, num, str, arr, obj, Items, nil, cons, Fields, end, field, get_field,
}
use local_graph_rag.Rag.Ollama.{Result, returned}

-- d[key] = value: a key that is there keeps its place.
unfoldable pub put_field : Str → Json → Fields → Fields
put_field key value end = field key value end
put_field key value (field k v fields) =
    let rest = put_field key value fields in
    if k == key then field k value fields else field k v rest

-- {**fields, **more}
unfoldable pub merge_fields : Fields → Fields → Fields
unfolding put_field
merge_fields fields end = fields
merge_fields fields (field k v more) = merge_fields (put_field k v fields) more

-- build_generate_payload, where `options` is empty if there are none
unfoldable pub build_generate_payload : ℕ → Str → Str → Bool → Option Json → Fields → Fields
unfolding merge_fields
build_generate_payload num_ctx model prompt stream format options =
    let payload = field (codes "model") (str model) (
      field (codes "prompt") (str prompt) (
        field (codes "stream") (bool stream) (
          field (codes "options")
            (obj (merge_fields (field (codes "num_ctx") (num num_ctx) end) options)) end))) in
    elim format [ none ↦ payload | some schema ↦ put_field (codes "format") schema payload ]

-- with_keep_alive
unfoldable pub with_keep_alive : Str → Fields → Fields
unfolding put_field
with_keep_alive keep_alive payload =
    if is_empty keep_alive then payload else put_field (codes "keep_alive") (str keep_alive) payload

-- What a timed `acquire` of the semaphore does: it gets a slot, or its wait runs out, and the clock
-- is then so much later than the wait.
pub data Wait : Type 0 where
  got : Wait
  expired : ℕ → Wait

pub data Slot : Type 0 where
  acquired : Slot
  slot_cancelled : Slot
  slot_timed_out : Slot
  no_fuel : Slot

-- The loop of `_generation_slot` after `attempt` waits, `elapsed` ticks from its start; `poll` is
-- _GENERATION_SLOT_POLL_SECONDS. A round without a slot takes one tick at least.
unfoldable pub slot_from : ℕ → ℕ → (ℕ → Bool) → (ℕ → Wait) → ℕ → ℕ → ℕ → Slot
slot_from timeout poll is_set waits zero attempt elapsed = no_fuel
slot_from timeout poll is_set waits (suc fuel) attempt elapsed =
    let next : Slot = elim (waits attempt) [
      | got ↦ acquired
      | expired late ↦
          slot_from timeout poll is_set waits fuel (attempt + 1)
            (elapsed + min poll (timeout - elapsed) + late)
    ] in
    if is_set attempt then slot_cancelled else if leb timeout elapsed then slot_timed_out else next

unfoldable pub generation_slot : ℕ → ℕ → (ℕ → Bool) → (ℕ → Wait) → Slot
unfolding slot_from
generation_slot timeout poll is_set waits = slot_from timeout poll is_set waits (suc timeout) 0 0

-- The text of an answer, or the exception.
pub data Answer : Type 0 where
  answer : Json → Answer
  raised : Answer

-- The body of a response, none where `r.json()` raises; a body that is no object has no `response`,
-- and the search for `error` in it raises.
unfoldable pub read_answer : Option Json → Answer
unfolding get_field
read_answer (some (obj fields)) = elim (get_field (codes "response") fields) [
  | none ↦ raised
  | some value ↦ answer value
]
read_answer _ = raised

-- `generate` in its slot: `posted` is what `post_with_retry` gives and `body` its JSON.
unfoldable pub generate : Slot → Result → Option Json → Answer
unfolding read_answer
generate acquired (returned code) body = read_answer body
generate acquired _ body = raised
generate _ posted body = raised

-- bool(value)
unfoldable pub is_true : Json → Bool
is_true null = false
is_true (bool b) = b
is_true (num n) = not (nat_eqb n 0)
is_true (str s) = not (is_empty s)
is_true (arr nil) = false
is_true (arr (cons _ _)) = true
is_true (obj end) = false
is_true (obj (field _ _ _)) = true

-- data.get(key), if it is true
unfoldable pub get_true : Str → Fields → Option Json
unfolding get_field is_true
get_true key fields = elim (get_field key fields) [
  | none ↦ none
  | some value ↦ if is_true value then some value else none
]

-- How the loop over the lines ends: by its end or a `break`, or by an exception.
pub data Finish : Type 0 where
  ended : Finish
  broken : Finish

pub record Streamed : Type 0 where
  pub pieces : List Json
  pub finish : Finish

-- What the loop of `stream_generate` does with one line: nothing, raise, or yield a piece if there is
-- one and then go on or `break`.
pub data Line : Type 0 where
  skipped : Line
  error_line : Line
  piece_line : Option Json → Bool → Line

-- A value that is no object has no `get`.
unfoldable pub read_value : Json → Line
unfolding get_true
read_value (obj fields) = elim (get_true (codes "error") fields) [
  | some message ↦ error_line
  | none ↦
      piece_line (get_true (codes "response") fields)
        (elim (get_true (codes "done") fields) [ none ↦ false | some value ↦ true ])
]
read_value _ = error_line

unfoldable pub read_line : (Str → Option Json) → Str → Line
unfolding read_value
read_line loads line =
    if is_empty line
    then skipped
    else elim (loads line) [ none ↦ skipped | some value ↦ read_value value ]

abbrev pub with_piece : Option Json → List Json → List Json
with_piece none pieces = pieces
with_piece (some piece) pieces = piece ∷ pieces

-- The loop over the lines, from number `i` on; `is_set` is the cancel event at each line, and
-- `finish` what follows the last one: the end of the response, or an exception of the connection.
unfoldable pub stream_from : (Str → Option Json) → (ℕ → Bool) → Finish → ℕ → List Str → Streamed
unfolding read_line
stream_from loads is_set finish i [] = record { pieces = []; finish = finish }
stream_from loads is_set finish i (line ∷ lines) =
    let later = stream_from loads is_set finish (i + 1) lines in
    elim (is_set i) [
      | true ↦ record { pieces = []; finish = ended }
      | false ↦ elim (read_line loads line) [
        | skipped ↦ later
        | error_line ↦ record { pieces = []; finish = broken }
        | piece_line piece is_last ↦ record {
          pieces = with_piece piece (if is_last then [] else later.pieces);
          finish = if is_last then ended else later.finish;
        }
      ]
    ]

-- `stream_generate` with its slot and the status of its request.
unfoldable pub stream_generate :
    (Str → Option Json) → (ℕ → Bool) → Slot → Bool → Finish → List Str → Streamed
unfolding stream_from
stream_generate loads is_set acquired true finish lines = stream_from loads is_set finish 0 lines
stream_generate loads is_set _ _ finish lines = record { pieces = []; finish = broken }
