-- ===== src/Server/Stream.antt =====
-- src/server.c: the streaming half of `drain_stream_ring`, with what the worker does between its critical
-- sections. `mg_printf`'s %M with MG_ESC, which escapes a text for JSON, is a parameter.
use professor_ai.Prelude.Text.{decimal}
use professor_ai.Prelude.{
  ℕ, Bool, true, false, not, ◌&&◌, ◌||◌, List, [], ◌∷◌, ◌++◌, if◌then◌else◌, ◌==◌, length, map,
}
use professor_ai.Prelude.Bytes.{Bytes, codes}
use professor_ai.Ring.{TokenRing, is_full, is_empty, store, drain_batch, clip}
use professor_ai.Worker.Protocol.{JobState, running, is_busy_state}

-- The fields of the job that go into a chunk, and the time.
pub record Header : Type 0 where
  pub request_id : Bytes
  pub model_id : Bytes
  pub is_chat : Bool
  pub created : ℕ

-- One "data: {...}" of a token; a time in seconds has at most 19 digits.
unfoldable pub sse_chunk : (Bytes → Bytes) → Header → Bytes → Bytes
unfolding decimal
sse_chunk esc h token =
    codes "data: {\"id\":\""
    ++ h.request_id
    ++ codes "\",\"object\":\""
    ++ codes (if h.is_chat then "chat.completion.chunk" else "text_completion.chunk")
    ++ codes "\",\"created\":"
    ++ decimal 19 h.created
    ++ codes ",\"model\":\""
    ++ h.model_id
    ++ codes "\",\"choices\":[{\"index\":0,"
    ++ (if h.is_chat
        then codes "\"delta\":{\"content\":\"" ++ esc token ++ codes "\"},"
        else codes "\"text\":\"" ++ esc token ++ codes "\",")
    ++ codes "\"finish_reason\":null}]}\n\n"

-- What the worker stores while the event loop does not hold the mutex; it waits at a full ring.
unfoldable pub put_all : List Bytes → TokenRing → TokenRing × List Bytes
put_all [] r = (r, [])
put_all (t ∷ ts) r =
    let (after, stored) = put_all ts (store r t) in
    if is_full r then (r, []) else (after, clip t ∷ stored)

-- A run of the `do ... while (batch_count == 32)`.
pub record Drained : Type 0 where
  pub ring : TokenRing
  pub stored : List Bytes
  pub sent : List Bytes
  pub ended : Bool

-- The end of a round: another one if the batch was full.
unfoldable pub join_round : TokenRing → List Bytes → List Bytes → Drained → Drained
join_round after stored batch rest =
    if length batch == 32
    then record {
      ring = rest.ring;
      stored = stored ++ rest.stored;
      sent = batch ++ rest.sent;
      ended = rest.ended;
    }
    else record { ring = after; stored = stored; sent = batch; ended = true }

-- For each round the texts that the worker writes before it; `ended` is false when these are used up.
unfoldable pub drain_loop : List (List Bytes) → TokenRing → Drained
unfolding join_round
drain_loop [] r = record { ring = r; stored = []; sent = []; ended = false }
drain_loop (ts ∷ gaps) r =
    let (before, stored) = put_all ts r in
    let (after, batch) = drain_batch 32 before in
    join_round after stored batch (drain_loop gaps after)

-- What is printed to the connection.
unfoldable pub printed : (Bytes → Bytes) → Header → Drained → List Bytes
unfolding sse_chunk
printed esc h d = map (sse_chunk esc h) d.sent

-- `done || sstate == JOB_STATE_DONE || sstate == JOB_STATE_ERROR`
unfoldable pub stream_ends : TokenRing → JobState → Bool
stream_ends r state = (r.done && is_empty r) || not (is_busy_state state)

-- One MG_EV_WAKEUP of a stream: what the worker writes before each round of the loop, and between the
-- loop and the test for the end; whether it marks the ring as done; the state that the test reads.
pub record Wakeup : Type 0 where
  pub gaps : List (List Bytes)
  pub late : List Bytes
  pub marks : Bool
  pub state : JobState

pub record Streamed : Type 0 where
  pub ring : TokenRing
  pub stored : List Bytes
  pub sent : List Bytes
  pub ended : Bool
  pub state : JobState

abbrev pub mark : Bool → TokenRing → TokenRing
mark b r = record r { done = r.done || b }

-- The end of one call of `drain_stream_ring`, before the rest of the wake-ups.
unfoldable pub join_wakeup : TokenRing → List Bytes → List Bytes → JobState → Streamed → Streamed
join_wakeup r stored sent state rest =
    if stream_ends r state
    then record { ring = r; stored = stored; sent = sent; ended = true; state = state }
    else record rest { stored = stored ++ rest.stored; sent = sent ++ rest.sent }

-- The calls of `drain_stream_ring` for one stream, until it ends or the list is over.
unfoldable pub stream_run : List Wakeup → TokenRing → Streamed
unfolding join_wakeup
stream_run [] r = record { ring = r; stored = []; sent = []; ended = false; state = running }
stream_run (w ∷ ws) r =
    let d = drain_loop w.gaps r in
    let (after, late) = put_all w.late d.ring in
    let marked = mark w.marks after in
    join_wakeup marked (d.stored ++ late) d.sent w.state (stream_run ws marked)
