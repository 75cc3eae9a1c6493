-- ===== src/Server/Reply.antt =====
-- src/server.c and src/worker.c: a job that does not stream, from its prompt to what its client reads.
use professor_ai.Prelude.{
  ℕ, ◌+◌, ◌≤◌, ◌<◌, ◌≡◌, refl, ◌⊎◌, Bool, true, false, some, List, [], length, take, ◌^◌, arith,
}
use professor_ai.Prelude.Int.{ℤ, pos}
use professor_ai.Prelude.Bytes.{Bytes, codes}
use professor_ai.Api.{id_max, model_max, content_max}
use professor_ai.Api.Builder.{Builder, Reader, Agrees}
use professor_ai.Api.Serialize.{Result, job_to_json}
use professor_ai.Api.RoundTrip.{Reads, content_path, job_to_json-Reads}
use professor_ai.Inference.{SampleParams}
use professor_ai.Inference.Generate.{
  FinishReason, unset, length_limit, stop, abort, time_limit, context_overflow, backend_error,
  Signals,
}
use professor_ai.Inference.Pieces.{HasShortPieces, deal, joined_pieces}
use professor_ai.Inference.Complete.{Sampler, Backend, Engine, Outcome}
use professor_ai.Inference.Reply.{opening}
use professor_ai.Inference.Chat.{prompt}
use professor_ai.Inference.Run.{Rendering}
use professor_ai.Worker.Accum.{fresh}
use professor_ai.Worker.Run.{
  Flags, Collecting, Ask, asked, ask_chat, ask_completion, run_job, job_start,
}
use professor_ai.Worker.Settled.{run_job-Settles, job_start-IsValid}
use professor_ai.Worker.Collects.{collects}
use professor_ai.Worker.Answer.{done-Answers}

-- The texts of the reasons.
unfoldable pub reason_text : FinishReason → Bytes
reason_text unset = []
reason_text length_limit = codes "length"
reason_text stop = codes "stop"
reason_text abort = codes "abort"
reason_text time_limit = codes "time_limit"
reason_text context_overflow = codes "context_overflow"
reason_text backend_error = codes "backend_error"

reason_text_fits : (why : FinishReason) → length (reason_text why) < 32
unfolding reason_text
reason_text_fits unset = omega arith
reason_text_fits length_limit = omega arith
reason_text_fits stop = omega arith
reason_text_fits abort = omega arith
reason_text_fits time_limit = omega arith
reason_text_fits context_overflow = omega arith
reason_text_fits backend_error = omega arith

-- A finished job with its ids.
unfoldable pub result_of : {C : Type 0} → Bytes → Bytes → Outcome C Collecting → Result
result_of id model out = record {
  request_id = id;
  model_id = model;
  response = out.user.response.buf;
  finish_reason = reason_text out.reason;
  prompt_tokens = pos out.prompt_tokens;
  completion_tokens = pos out.completion_tokens;
}

abbrev pub is_chat : Ask → Bool
is_chat (ask_chat ms) = true
is_chat (ask_completion text) = false

module _ {F D : Type 0} (b : Backend F) (eng : Engine) (params : SampleParams F)
    (chain : List (Sampler F)) (env : ℕ → Signals) (malloc : Bool) (r : Rendering)
    (short : HasShortPieces 255 b.model) (flags : ℕ → Flags) (bd : Builder D)
    (rd : Reader D bd.Text) (g : Agrees bd rd) where
  open b use {model}

  -- The client of a finished job that answered the prompt made of `ask`.
  abbrev pub IsServed :
      Ask → model.Ctx → Outcome (model.Ctx) Collecting → Bytes → Bytes → ℤ → bd.Text → Type 0
  IsServed ask ctx0 out id model_id now t =
      (text : Bytes) × (ctx : model.Ctx) × (n : ℕ) × (k : ℕ) × (asked r ask ≡ prompt text)
      × (opening b eng params chain text ctx0 ≡ some (ctx, n))
      × (k ≤ n)
      × ((out.completion_tokens ≡ k)
          ⊎ (out.completion_tokens ≡ k + 1) × ((out.reason ≡ stop) ⊎ (out.reason ≡ abort)))
      × (out.prompt_tokens + out.completion_tokens ≤ eng.n_ctx)
      × Reads bd rd t (content_path bd rd (is_chat ask)) (record {
        id = id;
        model = model_id;
        created = now;
        content = joined_pieces (take k (deal model n ctx));
        finish_reason = reason_text out.reason;
        usage = record {
          prompt_tokens = pos out.prompt_tokens;
          completion_tokens = pos out.completion_tokens;
          total_tokens = pos (out.prompt_tokens + out.completion_tokens);
        };
      })

  -- A client whose request does not stream, whose job ends as done and whose reply is printed as
  -- JSON reads as the content exactly what the model answers to the prompt made of the request: the
  -- first `k` pieces of the answer, for some `k`, whole, once each and in order. It reads `k`
  -- completion tokens, or `k + 1` where a stop sequence or the callback ended the answer, and prompt
  -- and completion fit the context.
  pub reply_reads :
      (malloc_buf : Bool) (ask : Ask) (ctx0 : model.Ctx) (out : Outcome (model.Ctx) Collecting)
      (id model_id : Bytes) (now : ℤ) (t : bd.Text)
      → 0 < eng.n_batch
      → eng.n_ctx < 2 ^ 31
      → length id < id_max
      → length model_id < model_max
      → run_job b eng params chain env malloc r flags malloc_buf ask ctx0 ≡ some out
      → out.ok ≡ true
      → job_to_json bd true (is_chat ask) (result_of id model_id out) now ≡ some t
      → IsServed ask ctx0 out id model_id now t
  unfolding result_of job_start fresh
  reply_reads malloc_buf ask ctx0 out id model_id now t batch small i m run ok json =
      let settled =
        run_job-Settles b eng params chain env malloc r short flags malloc_buf ask ctx0 batch in
      let (text, ctx, n, made, start, (k, below, grown, count, limit, kept), fits) =
        done-Answers b eng params chain env malloc (collects flags) short
          (job_start params.max_tokens) (job_start-IsValid params.max_tokens) (asked r ask) ctx0 _
          out settled run ok in
      let room : length out.user.response.buf < content_max =
        omega (arith, kept.counted, kept.room, kept.bounded) in
      let seen =
        job_to_json-Reads bd rd g (is_chat ask) (result_of id model_id out) now t out.prompt_tokens
          out.completion_tokens json i m room (reason_text_fits out.reason) refl refl
          (omega (arith, fits)) in
      (text, ctx, n, k, made, start, below, count, fits, rw (← grown) seen)
