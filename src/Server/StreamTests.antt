-- ===== src/Server/StreamTests.antt =====
-- Runs of the streaming loop, and its theorems at a concrete ring.
use professor_ai.Prelude.Text.{decimal}
use professor_ai.Prelude.{◌≡◌, refl, true, false, List, [], ◌∷◌, ◌++◌, take}
use professor_ai.Prelude.Bytes.{Bytes, codes}
use professor_ai.Ring
use professor_ai.Ring.{TokenRing, store, is_empty, is_full, drain_batch}
use professor_ai.Ring.Window.{contents, IsValid}
use professor_ai.Ring.Fifo.{store-IsValid}
use professor_ai.Ring.Progress.{init-IsValid}
use professor_ai.Worker.Protocol.{done, running, is_busy_state}
use professor_ai.Server.Stream.{sse_chunk, printed, drain_loop, join_round, put_all, stream_ends}
use professor_ai.Server.Stream.{Wakeup, join_wakeup, stream_run}
use professor_ai.Server.StreamRun.{stream_run_complete}
use professor_ai.Server.StreamLaws.{stream_ends_early}

-- One token waits.
abbrev one : TokenRing
one = store Ring.init (codes "Good")

one-IsValid : IsValid one
one-IsValid = store-IsValid Ring.init (codes "Good") init-IsValid

-- The worker writes a second token before the first round.
abbrev gaps : List (List Bytes)
gaps = (codes " news" ∷ []) ∷ []

printed-one :
    printed
      (λ s. s)
      (record { request_id = codes "a"; model_id = codes "m"; is_chat = false; created = 17 })
      (drain_loop gaps one)
    ≡ codes
        "data: {\"id\":\"a\",\"object\":\"text_completion.chunk\",\"created\":17,\"model\":\"m\",\"choices\":[{\"index\":0,\"text\":\"Good\",\"finish_reason\":null}]}\n\n"
      ∷ codes
          "data: {\"id\":\"a\",\"object\":\"text_completion.chunk\",\"created\":17,\"model\":\"m\",\"choices\":[{\"index\":0,\"text\":\" news\",\"finish_reason\":null}]}\n\n"
      ∷ []
unfolding printed sse_chunk decimal drain_loop join_round put_all drain_batch is_empty is_full store
    Ring.init
printed-one = refl

stream_ends_early_example :
    (contents (put_all (codes "!" ∷ []) (drain_loop gaps one).ring).0 ≡ take 127 (codes "!") ∷ [])
    × (stream_ends (put_all (codes "!" ∷ []) (drain_loop gaps one).ring).0 done ≡ true)
unfolding store Ring.init drain_loop join_round put_all drain_batch is_empty is_full
stream_ends_early_example = stream_ends_early gaps one (codes "!") one-IsValid refl

-- Two wake-ups: the second token is late for the first.
abbrev wakeups : List Wakeup
wakeups =
    record { gaps = [] ∷ []; late = codes " news" ∷ []; marks = true; state = running }
    ∷ record { gaps = [] ∷ []; late = []; marks = false; state = running }
    ∷ []

stream_run_complete_example :
    (stream_run wakeups one).sent ≡ contents one ++ (stream_run wakeups one).stored
unfolding stream_run join_wakeup stream_ends is_busy_state store Ring.init drain_loop join_round
    put_all drain_batch is_empty is_full
stream_run_complete_example = stream_run_complete wakeups one one-IsValid refl refl
