-- ===== src/Worker/FeedLaws.antt =====
-- src/worker.c: what a job that streams leaves in its ring and to the event loop.
use professor_ai.Prelude.{
  ℕ, ◌≡◌, ◌≢◌, refl, sym, ap, ◌∙◌, Bool, true, false, List, [], ◌∷◌, ◌++◌, take, append_assoc,
  append-nil, arith,
}
use professor_ai.Prelude.Bytes.{Bytes, take_all}
use professor_ai.Inference.Pieces.{Collects, joined_pieces}
use professor_ai.Ring
use professor_ai.Ring.{TokenRing, Wake, Written, accepted, refused, blocked, drain_batch, is_empty}
use professor_ai.Ring.Window.{IsValid, contents}
use professor_ai.Ring.Fifo.{advance_by-IsValid}
use professor_ai.Ring.Script.{ring_after, write-IsValid}
use professor_ai.Ring.Progress.{SomeRelief, write_returns}
use professor_ai.Ring.Taken.{
  taken_while, Follows, earlier-Follows, drain_batch-front, write-Follows,
}
use professor_ai.Worker.Stream.{Streaming, note_token, after_write, stream_token_cb}
use professor_ai.Worker.Feed.{Beat, Feeding, fed, feed_ring}

-- The ring is valid, and no write waits for ever.
pub record IsFlowing (s : Feeding) : Type 0 where
  pub valid : IsValid s.streaming.ring
  pub flows : s.stuck ≡ false

-- What the event loop has taken so far, and what the ring holds.
abbrev pub passed : Feeding → List Bytes
passed s = s.read ++ contents s.streaming.ring

note_token-ring :
    (was_empty : Bool) (s : Streaming) (r : TokenRing) → (note_token was_empty s r).ring ≡ r
unfolding note_token
note_token-ring was_empty s r = ground arith

after_write-IsValid :
    (s : Feeding) (was_empty : Bool) (took : List Bytes) (w : Written)
    → IsValid (ring_after w)
    → IsValid (fed s took (after_write was_empty s.streaming w)).0.streaming.ring
unfolding fed after_write
after_write-IsValid s was_empty took (accepted r) v = rw (note_token-ring was_empty s.streaming r) v
after_write-IsValid s was_empty took (refused r) v = v
after_write-IsValid s was_empty took (blocked r) v = v

pub feed_ring-IsValid :
    (beats : ℕ → Beat) (s : Feeding) (text : Bytes)
    → IsValid s.streaming.ring
    → IsValid (feed_ring beats s text).0.streaming.ring
unfolding feed_ring stream_token_cb
feed_ring-IsValid beats s text v =
    let beat = beats s.calls in
    let later = Ring.advance_by beat.between s.streaming.ring in
    after_write-IsValid s (is_empty s.streaming.ring) _
      (Ring.write later text beat.cancel beat.shutdown beat.wakes)
      (write-IsValid later text beat.cancel beat.shutdown beat.wakes
        (advance_by-IsValid beat.between s.streaming.ring v))

after_write-flows :
    (s : Feeding) (was_empty : Bool) (took : List Bytes) (w : Written)
    → s.stuck ≡ false
    → ((r : TokenRing) → w ≢ blocked r)
    → (fed s took (after_write was_empty s.streaming w)).0.stuck ≡ false
unfolding fed after_write
after_write-flows s was_empty took (accepted r) flows live = flows
after_write-flows s was_empty took (refused r) flows live = flows
after_write-flows s was_empty took (blocked r) flows live = absurd (live r refl)

feed_ring-flows :
    (beats : ℕ → Beat) (live : (i : ℕ) → SomeRelief (beats i).wakes) (s : Feeding) (text : Bytes)
    → IsFlowing s
    → (feed_ring beats s text).0.stuck ≡ false
unfolding feed_ring stream_token_cb
feed_ring-flows beats live s text f =
    let beat = beats s.calls in
    let later = Ring.advance_by beat.between s.streaming.ring in
    let v = advance_by-IsValid beat.between s.streaming.ring f.valid in
    after_write-flows s (is_empty s.streaming.ring) _
      (Ring.write later text beat.cancel beat.shutdown beat.wakes) f.flows
      (λ r. write_returns later text beat.cancel beat.shutdown beat.wakes r v (live s.calls))

pub feed_ring-IsFlowing :
    (beats : ℕ → Beat) (live : (i : ℕ) → SomeRelief (beats i).wakes) (s : Feeding) (text : Bytes)
    → IsFlowing s
    → IsFlowing (feed_ring beats s text).0
feed_ring-IsFlowing beats live s text f = record {
  valid = feed_ring-IsValid beats s text f.valid;
  flows = feed_ring-flows beats live s text f;
}

pub joined_pieces-append :
    (ps : List Bytes) (p : Bytes) → joined_pieces (ps ++ p ∷ []) ≡ joined_pieces ps ++ p
unfolding joined_pieces
joined_pieces-append [] p = append-nil p
joined_pieces-append (q ∷ ps) p =
    ap (λ x. q ++ x) (joined_pieces-append ps p) ∙ sym (append_assoc q (joined_pieces ps) p)

-- A call that returns true has passed on the clipped text, behind what was there; one that returns
-- false nothing.
abbrev Passes : Feeding → Bytes → Feeding × Bool → Type 0
Passes s text (s', go_on) =
    (go_on ≡ true → passed s' ≡ passed s ++ take 127 text ∷ [])
    × (go_on ≡ false → passed s' ≡ passed s)

after_write-Passes :
    (s : Feeding) (text : Bytes) (was_empty : Bool) (took : List Bytes) (w : Written)
    → Follows (contents s.streaming.ring) text took w
    → Passes s text (fed s took (after_write was_empty s.streaming w))
unfolding fed after_write
after_write-Passes s text was_empty took (accepted r) f = (
  λ e. rw (note_token-ring was_empty s.streaming r) (
      append_assoc s.read took (contents r)
      ∙ ap (λ x. s.read ++ x) f
      ∙ sym (append_assoc s.read (contents s.streaming.ring) (take 127 text ∷ []))),
  λ e. cc,
)
after_write-Passes s text was_empty took (refused r) f =
    (λ e. cc, λ e. append_assoc s.read took (contents r) ∙ ap (λ x. s.read ++ x) f)
after_write-Passes s text was_empty took (blocked r) f =
    (λ e. cc, λ e. append_assoc s.read took (contents r) ∙ ap (λ x. s.read ++ x) f)

pub feed_ring-Passes :
    (beats : ℕ → Beat) (s : Feeding) (text : Bytes)
    → IsValid s.streaming.ring
    → Passes s text (feed_ring beats s text)
unfolding feed_ring stream_token_cb
feed_ring-Passes beats s text v =
    let beat = beats s.calls in
    let ring = s.streaming.ring in
    let later = Ring.advance_by beat.between ring in
    let w = Ring.write later text beat.cancel beat.shutdown beat.wakes in
    let during = taken_while later beat.cancel beat.shutdown beat.wakes in
    after_write-Passes s text (is_empty ring) ((drain_batch beat.between ring).1 ++ during) w (
      earlier-Follows (contents ring) (drain_batch beat.between ring).1 (contents later) text during
        w (drain_batch-front beat.between ring v)
        (write-Follows later text beat.cancel beat.shutdown beat.wakes
          (advance_by-IsValid beat.between ring v)))

-- The callback of a job that streams keeps the text that goes through the ring, where no piece has
-- more than the 127 bytes that a slot of the ring holds.
abbrev pub collects_stream :
    (beats : ℕ → Beat) → ((i : ℕ) → SomeRelief (beats i).wakes) → Collects 127 (feed_ring beats)
collects_stream beats live = record {
  text = λ s. joined_pieces (passed s);
  Holds = IsFlowing;
  keeps = λ s p short f. feed_ring-IsFlowing beats live s p f;
  appends = λ s p short f taken.
      ap joined_pieces (
        (feed_ring-Passes beats s p f.valid).0 taken
        ∙ ap (λ x. passed s ++ x ∷ []) (take_all 127 p short))
      ∙ joined_pieces-append (passed s) p;
  refuses = λ s p short f left. ap joined_pieces ((feed_ring-Passes beats s p f.valid).1 left);
}
