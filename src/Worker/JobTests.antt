-- ===== src/Worker/JobTests.antt =====
-- A job that streams over a toy of llama.cpp, and a long piece.
use professor_ai.Prelude.{
  ◌+◌, ℕ, ◌≡◌, ◌≢◌, ap, ◌⊎◌, inl, some, true, false, [], ◌∷◌, replicate, length, take, arith,
}
use professor_ai.Prelude.Int.{pos, negsuc}
use professor_ai.Prelude.Bytes.{Bytes, codes}
use professor_ai.Ring.{drain_batch}
use professor_ai.Ring.Progress.{SomeRelief}
use professor_ai.Inference.Pieces.{HasShortPieces}
use professor_ai.Inference.CompleteLaws.{IsFailure}
use professor_ai.Inference.Complete.{Outcome}
use professor_ai.Inference.Run.{Rendering}
use professor_ai.Inference.Toy.{counting, quiet, bytewise, engine, params}
use professor_ai.Worker.Run.{ask_completion, asked, collect, run_job, job_start}
use professor_ai.Worker.Collects.{collects}
use professor_ai.Worker.Answer.{Settles}
use professor_ai.Worker.Feed.{Beat, Feeding, feed_ring, feed_start, run_stream}
use professor_ai.Worker.Settled.{IsStreamed, run_stream_ends, job_start-IsValid, run_job-Settles}
use professor_ai.Worker.LongPiece.{calm_beats, calm_flags, long_piece_differs}

counting-HasShortPieces : HasShortPieces 127 counting
counting-HasShortPieces t p e = let same : (97 + t) ∷ [] ≡ p = cc in omega (arith, ap length same)

counting-HasShortBytes : HasShortPieces 255 counting
counting-HasShortBytes t p e = let same : (97 + t) ∷ [] ≡ p = cc in omega (arith, ap length same)

-- A template that renders nothing.
abbrev template_fails : Rendering
template_fails = record {
  use_chatml_fallback = true;
  malloc_messages = true;
  malloc_text = true;
  template = record { size = λ ms. negsuc 0; render = λ ms. (negsuc 0, []) };
}

-- A reader that takes a token whenever the writer waits.
abbrev read_on : ℕ → Beat
read_on i = record {
  between = 1;
  cancel = false;
  shutdown = false;
  wakes = record { taken = 1; cancel = false; shutdown = false } ∷ [];
}

read_on-SomeRelief : (i : ℕ) → SomeRelief (read_on i).wakes
read_on-SomeRelief i = inl (inl (omega arith))

run_stream_ends_example :
    (out : Outcome ℕ Feeding) × (run_stream bytewise engine params [] quiet true template_fails
        read_on true
        (ask_completion (codes "once"))
        5
      ≡ some out)
    × ((out.ok ≡ true)
          × IsStreamed bytewise engine params [] quiet true template_fails
              (ask_completion (codes "once"))
              5
              out
        ⊎ (out.ok ≡ false) × (out.user ≡ feed_start true) × IsFailure out.reason)
run_stream_ends_example =
    run_stream_ends bytewise engine params [] quiet true template_fails counting-HasShortPieces
      read_on read_on-SomeRelief true (ask_completion (codes "once")) 5 (omega arith)

long_piece_differs_example :
    let p : Bytes = replicate 200 32 in
    ((drain_batch 32 (feed_ring calm_beats (feed_start true) p).0.streaming.ring).1
      ≡ take 127 p ∷ [])
    × ((collect calm_flags (job_start (pos 16)) p).0.response.buf ≡ p)
    × (take 127 p ≢ p)
long_piece_differs_example =
    long_piece_differs true (pos 16) (replicate 200 32) (omega arith) (omega arith)

run_job-Settles_example :
    Settles bytewise engine params [] quiet true
      (collects calm_flags)
      counting-HasShortBytes
      (job_start params.max_tokens)
      (job_start-IsValid params.max_tokens)
      (asked template_fails (ask_completion (codes "once")))
      5
      (run_job bytewise engine params [] quiet true template_fails calm_flags true
        (ask_completion (codes "once"))
        5)
run_job-Settles_example =
    run_job-Settles bytewise engine params [] quiet true template_fails counting-HasShortBytes
      calm_flags true (ask_completion (codes "once")) 5 (omega arith)
