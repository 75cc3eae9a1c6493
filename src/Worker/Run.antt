-- ===== src/Worker/Run.antt =====
-- src/worker.c: how `worker_thread_func` runs a job that does not stream.
use professor_ai.Prelude.{ℕ, ◌+◌, Bool, not, Option, some, List, if◌then◌else◌}
use professor_ai.Prelude.Int.{ℤ}
use professor_ai.Prelude.Bytes.{Bytes}
use professor_ai.Api.{ChatMessage}
use professor_ai.Inference.{SampleParams}
use professor_ai.Inference.Generate.{Signals, backend_error}
use professor_ai.Inference.Complete.{Sampler, Backend, Engine, Outcome, complete, failed}
use professor_ai.Inference.Run.{Rendering, rendered, inference_chat}
use professor_ai.Inference.Chat.{Rendered, prompt}
use professor_ai.Worker.Accum.{Response, fresh, accum_token_cb}

-- What a call of the callback finds: `job->cancel`, `g_shutdown_requested`, and whether a
-- reallocation succeeds.
pub record Flags : Type 0 where
  pub cancel : Bool
  pub shutdown : Bool
  pub realloc : Bool

-- What `accum_cb_data_t` leads to, and how often the callback was called.
pub record Collecting : Type 0 where
  pub response : Response
  pub calls : ℕ

-- `accum_token_cb` as the callback of a job.
unfoldable pub collect : (ℕ → Flags) → Collecting → Bytes → Collecting × Bool
collect flags s token =
    let f = flags s.calls in
    let (r, go_on) = accum_token_cb f.cancel f.shutdown f.realloc s.response token in
    (record { response = r; calls = s.calls + 1 }, go_on)

-- `response_buf` as it is allocated.
unfoldable pub job_start : ℤ → Collecting
job_start max_tokens = record { response = fresh max_tokens; calls = 0 }

-- What a job asks: its messages, or its prompt.
pub data Ask : Type 0 where
  ask_chat : List ChatMessage → Ask
  ask_completion : Bytes → Ask

-- The prompt that is made of it.
unfoldable pub asked : Rendering → Ask → Rendered
asked r (ask_chat ms) = rendered r ms
asked r (ask_completion text) = prompt text

module _ {F : Type 0} (b : Backend F) (eng : Engine) (params : SampleParams F)
    (chain : List (Sampler F)) (env : ℕ → Signals) (malloc : Bool) (r : Rendering) where
  open b use {model}

  -- The call of `inference_chat` or of `inference_complete`.
  unfoldable pub infer :
      {S : Type 0} → (S → Bytes → S × Bool) → Ask → model.Ctx → S → Option (Outcome (model.Ctx) S)
  infer cb (ask_chat ms) ctx user = inference_chat b eng params chain cb env malloc r ms ctx user
  infer cb (ask_completion text) ctx user = complete b eng params chain cb env malloc text ctx user

  -- The branch of a job that does not stream; `malloc_buf` says whether its buffer is allocated.
  -- The state that is stored next is `JOB_STATE_DONE` where the outcome is `ok`.
  unfoldable pub run_job :
      (ℕ → Flags) → Bool → Ask → model.Ctx → Option (Outcome (model.Ctx) Collecting)
  run_job flags malloc_buf ask ctx =
      let start = job_start params.max_tokens in
      if not malloc_buf
      then some (failed b eng params chain (collect flags) env malloc ctx start 0 backend_error)
      else infer (collect flags) ask ctx start
