-- ===== src/Worker/Settled.antt =====
-- src/worker.c: how `worker_thread_func` ends a job, of either kind.
use professor_ai.Prelude.{
  ℕ, ◌+◌, ◌<◌, ◌≤◌, ◌≡◌, ◌≢◌, refl, ◌⊎◌, inl, inr, Bool, true, false, some, List, ◌++◌, take,
}
use professor_ai.Prelude.Int.{ℤ}
use professor_ai.Prelude.Bytes.{Bytes}
use professor_ai.Ring
use professor_ai.Ring.{is_empty}
use professor_ai.Ring.Window.{contents}
use professor_ai.Ring.Progress.{SomeRelief, init-IsValid}
use professor_ai.Inference.{SampleParams}
use professor_ai.Inference.Generate.{length_limit, stop, abort, Signals, backend_error}
use professor_ai.Inference.Pieces.{HasShortPieces, deal, joined_pieces}
use professor_ai.Inference.Complete.{Sampler, Backend, Engine, Outcome, failed}
use professor_ai.Inference.CompleteLaws.{IsFailure}
use professor_ai.Inference.Reply.{opening}
use professor_ai.Inference.Chat.{prompt}
use professor_ai.Inference.Run.{Rendering}
use professor_ai.Worker.Accum.{IsValid, fresh-IsValid}
use professor_ai.Worker.Run.{Flags, Ask, asked, collect, run_job, job_start}
use professor_ai.Worker.Collects.{collects}
use professor_ai.Worker.Feed.{Beat, Feeding, feed_start, run_stream}
use professor_ai.Worker.FeedLaws.{IsFlowing, collects_stream}
use professor_ai.Worker.Answer.{Settles, infer-Settles}

pub job_start-IsValid : (max_tokens : ℤ) → IsValid (job_start max_tokens).response
unfolding job_start
job_start-IsValid max_tokens = fresh-IsValid max_tokens

feed_start-IsFlowing : (has_mgr : Bool) → IsFlowing (feed_start has_mgr)
unfolding feed_start is_empty Ring.init
feed_start-IsFlowing has_mgr = record { valid = init-IsValid; flows = refl }

module _ {F : Type 0} (b : Backend F) (eng : Engine) (params : SampleParams F)
    (chain : List (Sampler F)) (env : ℕ → Signals) (malloc : Bool) (r : Rendering) where
  open b use {model}

  -- A job that does not stream comes to an end. If it ends as done, its buffer holds the first `k`
  -- pieces of the model's answer to its prompt, whole, once each and in order, and its tokens fit the
  -- context; if not, nothing was generated and the buffer is empty.
  pub run_job-Settles :
      (short : HasShortPieces 255 model) (flags : ℕ → Flags) (malloc_buf : Bool) (ask : Ask)
      (ctx0 : model.Ctx)
      → 0 < eng.n_batch
      → Settles b eng params chain env malloc
          (collects flags)
          short
          (job_start params.max_tokens)
          (job_start-IsValid params.max_tokens)
          (asked r ask)
          ctx0
          (run_job b eng params chain env malloc r flags malloc_buf ask ctx0)
  unfolding run_job
  run_job-Settles short flags false ask ctx0 h =
      let start = job_start params.max_tokens in
      (
        failed b eng params chain (collect flags) env malloc ctx0 start 0 backend_error,
        refl,
        inr (refl, refl, refl, inr refl),
      )
  run_job-Settles short flags true ask ctx0 h =
      infer-Settles b eng params chain env malloc (collects flags) short
        (job_start params.max_tokens) (job_start-IsValid params.max_tokens) r ask ctx0 h

  -- What the event loop has taken off the ring and what the ring still holds are the first `k` pieces.
  abbrev pub IsStreamed : Ask → model.Ctx → Outcome (model.Ctx) Feeding → Type 0
  IsStreamed ask ctx0 out =
      (text : Bytes) × (ctx : model.Ctx) × (n : ℕ) × (k : ℕ) × (asked r ask ≡ prompt text)
      × (opening b eng params chain text ctx0 ≡ some (ctx, n))
      × (k ≤ n)
      × (joined_pieces (out.user.read ++ contents out.user.streaming.ring)
          ≡ joined_pieces (take k (deal model n ctx)))
      × ((out.completion_tokens ≡ k)
          ⊎ (out.completion_tokens ≡ k + 1) × ((out.reason ≡ stop) ⊎ (out.reason ≡ abort)))
      × ((k ≡ n) ⊎ (out.reason ≢ length_limit))
      × (out.prompt_tokens + out.completion_tokens ≤ eng.n_ctx)
      × (out.user.stuck ≡ false)

  -- With a model whose pieces have at most 127 bytes, and where every wait at the full ring ends, a
  -- job that streams comes to an end. If it ends as done, what the event loop has taken from the ring
  -- and what is left in it are together the text of the first `k` pieces of the model's answer to its
  -- prompt; if not, nothing was generated and written.
  pub run_stream_ends :
      (short : HasShortPieces 127 model) (beats : ℕ → Beat)
      (live : (i : ℕ) → SomeRelief (beats i).wakes) (has_mgr : Bool) (ask : Ask) (ctx0 : model.Ctx)
      → 0 < eng.n_batch
      → (out : Outcome (model.Ctx) Feeding) × (run_stream b eng params chain env malloc r beats
            has_mgr ask ctx0
          ≡ some out)
        × ((out.ok ≡ true) × IsStreamed ask ctx0 out
            ⊎ (out.ok ≡ false) × (out.user ≡ feed_start has_mgr) × IsFailure out.reason)
  unfolding run_stream feed_start joined_pieces Ring.init
  run_stream_ends short beats live has_mgr ask ctx0 h =
      let (out, run, ends) =
        infer-Settles b eng params chain env malloc (collects_stream beats live) short
          (feed_start has_mgr) (feed_start-IsFlowing has_mgr) r ask ctx0 h in
      elim ends [
        | inl (ok, (text, ctx, n, made, start, (k, below, grown, count, limit, flow), fits)) ↦ (
          out,
          run,
          inl (ok, (text, ctx, n, k, made, start, below, grown, count, limit, fits, flow.flows)),
        )
        | inr (failure, none_made, untouched, why) ↦ (out, run, inr (failure, untouched, why))
      ]
