-- ===== src/Worker/Stream.antt =====
-- src/worker.c: `stream_token_cb`, which hands a token to the event loop.
use professor_ai.Prelude.{ℕ, ◌+◌, ◌<◌, ◌≡◌, Bool, true, ◌&&◌, ◌||◌, List, if◌then◌else◌, leb, arith}
use professor_ai.Prelude.Bytes.{Bytes}
use professor_ai.Ring
use professor_ai.Ring.{TokenRing, Wake, Written, accepted, refused, blocked, is_empty}

-- The job's ring, whether `job->mgr` is set, `tokens_since_wake`, and how often `mg_wakeup` was
-- called.
pub record Streaming : Type 0 where
  pub ring : TokenRing
  pub has_mgr : Bool
  pub tokens_since_wake : ℕ
  pub wakeups : ℕ

-- `job->mgr && (was_empty || sd->tokens_since_wake >= 8)`
unfoldable pub note_token : Bool → Streaming → TokenRing → Streaming
note_token was_empty s ring =
    let since = s.tokens_since_wake + 1 in
    if s.has_mgr && (was_empty || leb 8 since)
    then record s { ring = ring; tokens_since_wake = 0; wakeups = s.wakeups + 1 }
    else record s { ring = ring; tokens_since_wake = since }

pub data Sent : Type 0 where
  sent : Streaming → Sent
  stopped : Streaming → Sent
  waits : Streaming → Sent

-- After `ring_write`.
unfoldable pub after_write : Bool → Streaming → Written → Sent
unfolding note_token
after_write was_empty s (accepted ring) = sent (note_token was_empty s ring)
after_write was_empty s (refused ring) = stopped (record s { ring = ring })
after_write was_empty s (blocked ring) = waits (record s { ring = ring })

-- `stream_token_cb`. `between` is what the reader takes between the look at the ring and the write.
unfoldable pub stream_token_cb : Streaming → Bytes → ℕ → Bool → Bool → List Wake → Sent
stream_token_cb s text between cancel shutdown ws =
    after_write (is_empty s.ring) s
      (Ring.write (Ring.advance_by between s.ring) text cancel shutdown ws)

-- Fewer than eight tokens are ever written without a wake-up of the event loop.
abbrev pub IsPrompt : Streaming → Type 0
IsPrompt s = s.tokens_since_wake < 8

abbrev state_of : Sent → Streaming
state_of (sent s) = s
state_of (stopped s) = s
state_of (waits s) = s

after_write-IsPrompt :
    (was_empty : Bool) (s : Streaming) (w : Written)
    → s.has_mgr ≡ true
    → IsPrompt s
    → IsPrompt (state_of (after_write was_empty s w))
unfolding after_write
after_write-IsPrompt was_empty s (accepted ring) m h = ground arith
after_write-IsPrompt was_empty s (refused ring) m h = h
after_write-IsPrompt was_empty s (blocked ring) m h = h

-- On a job with an event loop to wake, the callback wakes it at the latest with the eighth token
-- since the last wake-up.
pub stream_token_cb-IsPrompt :
    (s : Streaming) (text : Bytes) (between : ℕ) (cancel shutdown : Bool) (ws : List Wake)
    → s.has_mgr ≡ true
    → IsPrompt s
    → IsPrompt (state_of (stream_token_cb s text between cancel shutdown ws))
unfolding stream_token_cb
stream_token_cb-IsPrompt s text between cancel shutdown ws m h =
    after_write-IsPrompt (is_empty s.ring) s
      (Ring.write (Ring.advance_by between s.ring) text cancel shutdown ws) m h

after_write_wakes :
    (s s' : Streaming) (w : Written)
    → s.has_mgr ≡ true
    → after_write true s w ≡ sent s'
    → s'.wakeups ≡ s.wakeups + 1
unfolding after_write
after_write_wakes s s' (accepted ring) m h = ground arith
after_write_wakes s s' (refused ring) m h = ground arith
after_write_wakes s s' (blocked ring) m h = ground arith

-- A token that finds the ring empty wakes the event loop when it is written.
pub stream_token_cb_wakes :
    (s s' : Streaming) (text : Bytes) (between : ℕ) (cancel shutdown : Bool) (ws : List Wake)
    → s.has_mgr ≡ true
    → is_empty s.ring ≡ true
    → stream_token_cb s text between cancel shutdown ws ≡ sent s'
    → s'.wakeups ≡ s.wakeups + 1
unfolding stream_token_cb
stream_token_cb_wakes s s' text between cancel shutdown ws m e h =
    after_write_wakes s s' (Ring.write (Ring.advance_by between s.ring) text cancel shutdown ws) m
      (rw e at h)
