-- ===== src/Worker/LongPiece.antt =====
-- src/worker.c: the two callbacks on a piece that a slot of the ring does not hold.
use professor_ai.Prelude.{
  ℕ, ◌≤◌, ◌<◌, ◌≡◌, ◌≢◌, refl, sym, ap, ◌∙◌, ◌++◌, inl, inr, Bool, true, false, [], ◌∷◌, take,
  length, length-take, arith,
}
use professor_ai.Prelude.Int.{ℤ}
use professor_ai.Prelude.Bytes.{Bytes}
use professor_ai.Ring
use professor_ai.Ring.{TokenRing, is_full, finish_write, advance_by, drain_batch}
use professor_ai.Ring.Window.{IsValid, contents}
use professor_ai.Ring.Progress.{init-IsValid}
use professor_ai.Ring.Script.{drain_refines}
use professor_ai.Ring.Taken.{taken_while}
use professor_ai.Worker.Accum.{accum_token_cb-IsAccumulated, fresh, fresh-IsValid}
use professor_ai.Worker.Stream.{stream_token_cb, after_write}
use professor_ai.Worker.Run.{Flags, collect, job_start}
use professor_ai.Worker.Feed.{Beat, fed, feed_ring, feed_start}
use professor_ai.Worker.FeedLaws.{passed, feed_ring-IsValid, feed_ring-Passes}

-- No flag is up, nothing is read meanwhile, and memory is there.
abbrev pub calm_beats : ℕ → Beat
calm_beats i = record { between = 0; cancel = false; shutdown = false; wakes = [] }

abbrev pub calm_flags : ℕ → Flags
calm_flags i = record { cancel = false; shutdown = false; realloc = true }

-- The ring after the first call of the callback.
abbrev first_ring : Bool → Bytes → TokenRing
first_ring has_mgr p = (feed_ring calm_beats (feed_start has_mgr) p).0.streaming.ring

first_call :
    (has_mgr : Bool) (p : Bytes)
    → ((feed_ring calm_beats (feed_start has_mgr) p).1 ≡ true)
      × ((feed_ring calm_beats (feed_start has_mgr) p).0.read ≡ [])
unfolding feed_ring feed_start stream_token_cb after_write fed taken_while drain_batch Ring.write
    Ring.init is_full finish_write advance_by
first_call has_mgr p = (refl, refl)

init_valid : (has_mgr : Bool) → IsValid (feed_start has_mgr).streaming.ring
unfolding feed_start
init_valid has_mgr = init-IsValid

nothing_before : (has_mgr : Bool) → passed (feed_start has_mgr) ≡ []
unfolding feed_start Ring.init
nothing_before has_mgr = refl

first_piece_stored :
    (has_mgr : Bool) (p : Bytes) → contents (first_ring has_mgr p) ≡ take 127 p ∷ []
first_piece_stored has_mgr p =
    let (taken, none_read) = first_call has_mgr p in
    let behind =
      (feed_ring-Passes calm_beats (feed_start has_mgr) p (init_valid has_mgr)).0 taken in
    sym (ap (λ x. x ++ contents (first_ring has_mgr p)) none_read)
    ∙ behind
    ∙ ap (λ x. x ++ take 127 p ∷ []) (nothing_before has_mgr)

first_piece_read :
    (has_mgr : Bool) (p : Bytes) → (drain_batch 32 (first_ring has_mgr p)).1 ≡ take 127 p ∷ []
first_piece_read has_mgr p =
    (drain_refines 32 (first_ring has_mgr p)
      (feed_ring-IsValid calm_beats (feed_start has_mgr) p (init_valid has_mgr))).1
    ∙ ap (take 32) (first_piece_stored has_mgr p)

first_piece_collected :
    (max_tokens : ℤ) (p : Bytes)
    → length p ≤ 255
    → (collect calm_flags (job_start max_tokens) p).0.response.buf ≡ p
unfolding collect job_start fresh
first_piece_collected max_tokens p small =
    elim ((accum_token_cb-IsAccumulated false false true (fresh max_tokens) p
      (fresh-IsValid max_tokens) (omega arith)).1) [
        | inl (stopped, same, inl up) ↦ cc
        | inl (stopped, same, inr (inl full)) ↦ absurd (omega arith)
        | inl (stopped, same, inr (inr (none_left, cap))) ↦ cc
        | inr (taken, grown, going, room) ↦ grown
      ]

-- The first piece of an answer, where it has 128 to 255 bytes, no flag is up and memory is there: of a job
-- that streams, the batch that the event loop then takes off the ring to send has its first 127 bytes
-- only, and a job that does not stream has it whole.
pub long_piece_differs :
    (has_mgr : Bool) (max_tokens : ℤ) (p : Bytes)
    → 127 < length p
    → length p ≤ 255
    → ((drain_batch 32 (feed_ring calm_beats (feed_start has_mgr) p).0.streaming.ring).1
        ≡ take 127 p ∷ [])
      × ((collect calm_flags (job_start max_tokens) p).0.response.buf ≡ p)
      × (take 127 p ≢ p)
long_piece_differs has_mgr max_tokens p long small = (
  first_piece_read has_mgr p,
  first_piece_collected max_tokens p small,
  λ same. absurd (omega (arith, ap length same, length-take 127 p)),
)
