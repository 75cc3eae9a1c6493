-- ===== src/Inference.antt =====
-- src/inference.h: the sampling parameters and the engine's own fields.
pub mod Setup
pub mod Params
pub mod ParamBounds
pub mod Window
pub mod WindowLaws
pub mod Generate
pub mod Pieces
pub mod Delivery
pub mod GenerateLaws
pub mod Complete
pub mod CompleteLaws
pub mod Reply
pub mod Chat
pub mod ChatLaws
pub mod Run
pub mod Refusal
pub mod Toy
mod Tests
use professor_ai.Prelude.{ℕ, List, Bool}
use professor_ai.Prelude.Int.{ℤ}
use professor_ai.Prelude.Bytes.{Bytes}

-- `sample_params_t`
pub record SampleParams (F : Type 0) : Type 0 where
  pub temperature : F
  pub top_p : F
  pub top_k : ℤ
  pub repeat_penalty : F
  pub frequency_penalty : F
  pub presence_penalty : F
  pub max_tokens : ℤ
  pub max_inference_seconds : ℤ
  pub stop : List Bytes
  pub n_stop : ℕ
