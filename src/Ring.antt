-- ===== src/Ring.antt =====
-- src/worker.h, src/worker.c and src/server.c: `token_ring_t`, which the worker thread writes and
-- the event loop drains. Each operation stands for one critical section of the ring's mutex.
pub mod Window
pub mod Fifo
pub mod Script
pub mod Progress
pub mod Taken
mod Tests
use professor_ai.Prelude.{
  ℕ, zero, suc, ◌+◌, ◌-◌, ◌%◌, Bool, true, false, ◌&&◌, ◌||◌, not, List, [], ◌∷◌, Option, none,
  some, if◌then◌else◌, ◌==◌, ltb, leb, length, get_or, set, take, replicate,
}
use professor_ai.Prelude.Bytes.{Bytes}

-- TOKEN_RING_SIZE
abbrev pub ring_size : ℕ
ring_size = 256

-- TOKEN_TEXT_MAX
abbrev pub token_text_max : ℕ
token_text_max = 128

-- `token_ring_t`, its mutex and conditions left out.
pub record TokenRing : Type 0 where
  pub text : List Bytes
  pub head : ℕ
  pub tail : ℕ
  pub done : Bool

unfoldable pub init : TokenRing
init = record { text = replicate ring_size []; head = 0; tail = 0; done = false }

unfoldable pub is_full : TokenRing → Bool
is_full r = (r.head + 1) % ring_size == r.tail

unfoldable pub is_empty : TokenRing → Bool
is_empty r = r.head == r.tail

-- `len = strlen(text); if (len >= TOKEN_TEXT_MAX) len = TOKEN_TEXT_MAX - 1;` and the copy.
abbrev pub clip : Bytes → Bytes
clip text =
    let len = length text in take (if leb token_text_max len then token_text_max - 1 else len) text

-- The copy into slot `head` and the move of `head`.
unfoldable pub store : TokenRing → Bytes → TokenRing
store r text = record r { text = set r.text r.head (clip text); head = (r.head + 1) % ring_size }

-- What the other threads did while the writer slept: the reader's new ring, and the two flags as
-- the loop reads them again.
pub record Wake : Type 0 where
  pub taken : ℕ
  pub cancel : Bool
  pub shutdown : Bool

-- The reader moves `tail` once, if there is something to take.
unfoldable pub advance : TokenRing → TokenRing
unfolding is_empty
advance r = if is_empty r then r else record r { tail = (r.tail + 1) % ring_size }

unfoldable pub advance_by : ℕ → TokenRing → TokenRing
unfolding advance
advance_by zero r = r
advance_by (suc n) r = advance_by n (advance r)

pub data Written : Type 0 where
  accepted : TokenRing → Written
  refused : TokenRing → Written
  blocked : TokenRing → Written

-- What follows the wait loop.
unfoldable pub finish_write : TokenRing → Bytes → Bool → Written
unfolding store
finish_write r text stop = if stop then refused r else accepted (store r text)

-- `ring_write`: the list holds the wake-ups of `pthread_cond_timedwait`, in order. A write that is
-- still waiting when the list ends is `blocked`.
unfoldable pub write : TokenRing → Bytes → Bool → Bool → List Wake → Written
unfolding is_full finish_write
write r text cancel shutdown [] =
    if is_full r && not cancel && not shutdown
    then blocked r
    else finish_write r text (cancel || shutdown)
write r text cancel shutdown (w ∷ ws) =
    let rest = write (advance_by w.taken r) text w.cancel w.shutdown ws in
    if is_full r && not cancel && not shutdown
    then rest
    else finish_write r text (cancel || shutdown)

-- `ring_read(r, out, out_len)`: the ring after it, and what it puts into `out` if it returns 1.
unfoldable pub read : TokenRing → ℕ → TokenRing × Option Bytes
unfolding is_empty
read r out_len = if is_empty r then (r, none) else (
  record r { tail = (r.tail + 1) % ring_size },
  some (take (out_len - 1) (get_or r.text r.tail [])),
)

-- The critical section of `drain_stream_ring`: at most `batch` tokens, oldest first.
unfoldable pub drain_batch : ℕ → TokenRing → TokenRing × List Bytes
unfolding is_empty
drain_batch zero r = (r, [])
drain_batch (suc n) r =
    let next = drain_batch n (record r { tail = (r.tail + 1) % ring_size }) in
    if is_empty r then (r, []) else (next.0, clip (get_or r.text r.tail []) ∷ next.1)
