-- ===== src/Worker/Feed.antt =====
-- src/worker.c: `stream_token_cb` as the callback of a job that streams, while the event loop reads.
use professor_ai.Prelude.{ℕ, ◌+◌, Bool, true, false, Option, List, [], ◌++◌}
use professor_ai.Prelude.Bytes.{Bytes}
use professor_ai.Inference.{SampleParams}
use professor_ai.Inference.Generate.{Signals}
use professor_ai.Inference.Complete.{Sampler, Backend, Engine, Outcome}
use professor_ai.Inference.Run.{Rendering}
use professor_ai.Ring
use professor_ai.Ring.{TokenRing, Wake, drain_batch}
use professor_ai.Ring.Taken.{taken_while}
use professor_ai.Worker.Stream.{Streaming, Sent, sent, stopped, waits, stream_token_cb}
use professor_ai.Worker.Run.{Ask, infer}

-- What a call of the callback meets: what the reader takes between the look at the ring and the
-- write, the two flags, and the wake-ups of a write that finds the ring full.
pub record Beat : Type 0 where
  pub between : ℕ
  pub cancel : Bool
  pub shutdown : Bool
  pub wakes : List Wake

-- `stream_cb_data_t` with its job; `read` is what the event loop has taken off the ring so far, as
-- `drain_batch` gives it, and `calls` counts the calls. `stuck` marks a write that is still waiting when its wake-ups are used up.
pub record Feeding : Type 0 where
  pub streaming : Streaming
  pub read : List Bytes
  pub calls : ℕ
  pub stuck : Bool

-- After a call, during which the event loop took `took`.
unfoldable pub fed : Feeding → List Bytes → Sent → Feeding × Bool
fed s took (sent st) =
    (record s { streaming = st; read = s.read ++ took; calls = s.calls + 1 }, true)
fed s took (stopped st) =
    (record s { streaming = st; read = s.read ++ took; calls = s.calls + 1 }, false)
fed s took (waits st) =
    (record s { streaming = st; read = s.read ++ took; calls = s.calls + 1; stuck = true }, false)

unfoldable pub feed_ring : (ℕ → Beat) → Feeding → Bytes → Feeding × Bool
unfolding fed drain_batch taken_while
feed_ring beats s text =
    let beat = beats s.calls in
    let ring = s.streaming.ring in
    let later = Ring.advance_by beat.between ring in
    let took =
      (drain_batch beat.between ring).1 ++ taken_while later beat.cancel beat.shutdown beat.wakes in
    fed s took (stream_token_cb s.streaming text beat.between beat.cancel beat.shutdown beat.wakes)

-- A new job's ring and callback data.
unfoldable pub feed_start : Bool → Feeding
feed_start has_mgr = record {
  streaming = record { ring = Ring.init; has_mgr = has_mgr; tokens_since_wake = 0; wakeups = 0 };
  read = [];
  calls = 0;
  stuck = false;
}

-- The branch of a job that streams; its ring is marked as done behind it (Worker.Protocol).
unfoldable pub run_stream :
    {F : Type 0} (b : Backend F)
    → Engine
    → SampleParams F
    → List (Sampler F)
    → (ℕ → Signals)
    → Bool
    → Rendering
    → (ℕ → Beat)
    → Bool
    → Ask
    → b.model.Ctx
    → Option (Outcome (b.model.Ctx) Feeding)
run_stream b eng params chain env malloc r beats has_mgr ask ctx =
    infer b eng params chain env malloc r (feed_ring beats) ask ctx (feed_start has_mgr)
