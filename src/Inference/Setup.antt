-- ===== src/Inference/Setup.antt =====
-- src/inference.c: what `inference_init` puts into the engine and asks of llama.cpp.
use professor_ai.Prelude.{
  ℕ, suc, ◌-◌, ◌/◌, ◌%◌, ◌^◌, Bool, Option, none, some, [], if◌then◌else◌, arith,
}
use professor_ai.Prelude.Int.{ℤ, pos, negsuc, ltb_ℤ, ◌≤ℤ◌}
use professor_ai.Prelude.Bytes.{Bytes, snprintf_s}
use professor_ai.Config.{Config}
use professor_ai.Config.Parse.{is_nil, to_int32}

-- The cast of an `int32_t` to `uint32_t`.
unfoldable pub to_uint32 : ℤ → ℕ
to_uint32 (pos n) = n % 2 ^ 32
to_uint32 (negsuc n) = (2 ^ 32 - suc n % 2 ^ 32) % 2 ^ 32

unfoldable pub or_found : ℤ → ℤ → ℤ
or_found asked found =
    if ltb_ℤ (pos 0) asked then asked else if ltb_ℤ found (pos 1) then pos 1 else found

-- `cfg->n_threads`, or half of what `sysconf(_SC_NPROCESSORS_ONLN)` returns.
unfoldable pub thread_count : ℤ → ℤ → ℤ
unfolding or_found
thread_count asked nproc =
    let half : ℤ = elim nproc [ pos n ↦ to_int32 (pos (n / 2)) | negsuc n ↦ pos 4 ] in
    let found = if ltb_ℤ (pos 0) nproc then half else pos 4 in or_found asked found

-- The fields of `llama_model_params` and `llama_context_params` that are set; the cache is quantized.
pub record LlamaParams : Type 0 where
  pub n_gpu_layers : ℤ
  pub n_ctx : ℕ
  pub n_batch : ℕ
  pub n_threads : ℤ
  pub n_threads_batch : ℤ

-- The fields of `inference_engine_t` that `inference_init` sets.
pub record EngineFields : Type 0 where
  pub n_ctx : ℤ
  pub n_batch : ℤ
  pub chat_template : Bytes
  pub use_chatml_fallback : Bool

unfoldable pub llama_params : {F : Type 0} → Config F → ℤ → LlamaParams
unfolding thread_count to_uint32
llama_params cfg nproc =
    let threads = thread_count cfg.n_threads nproc in
    record {
      n_gpu_layers = cfg.n_gpu_layers;
      n_ctx = to_uint32 cfg.n_ctx;
      n_batch = to_uint32 cfg.n_batch;
      n_threads = threads;
      n_threads_batch = threads;
    }

-- With what `llama_model_chat_template` returns.
unfoldable pub engine_fields : {F : Type 0} → Config F → Option Bytes → EngineFields
engine_fields cfg tmpl =
    let given : Bytes = elim tmpl [ none ↦ [] | some s ↦ s ] in
    record {
      n_ctx = cfg.n_ctx;
      n_batch = cfg.n_batch;
      chat_template = snprintf_s 4096 given;
      use_chatml_fallback = is_nil given;
    }

or_found-positive : (asked found : ℤ) → pos 1 ≤ℤ or_found asked found
unfolding or_found
or_found-positive asked found = ground arith

-- llama.cpp is asked for one thread at least, whatever is configured and whatever number of processors
-- `sysconf` returns.
pub thread_count-positive : (asked nproc : ℤ) → pos 1 ≤ℤ thread_count asked nproc
unfolding thread_count
thread_count-positive asked nproc = or_found-positive asked (
    if ltb_ℤ (pos 0) nproc
    then elim nproc [ pos n ↦ to_int32 (pos (n / 2)) | negsuc n ↦ pos 4 ]
    else pos 4)
