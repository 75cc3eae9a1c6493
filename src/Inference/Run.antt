-- ===== src/Inference/Run.antt =====
-- src/inference.c: `inference_chat` with its call of `inference_complete`.
use professor_ai.Prelude.{ℕ, Bool, Option, some, List}
use professor_ai.Prelude.Bytes.{Bytes}
use professor_ai.Api.{ChatMessage}
use professor_ai.Inference.{SampleParams}
use professor_ai.Inference.Generate.{Signals}
use professor_ai.Inference.Complete.{Sampler, Backend, Engine, Outcome, complete, failed}
use professor_ai.Inference.Chat.{Template, Rendered, prompt, refused, render_prompt}

-- What the rendering of a chat depends on: `eng->use_chatml_fallback`, whether the two allocations
-- succeed, and the model's template.
pub record Rendering : Type 0 where
  pub use_chatml_fallback : Bool
  pub malloc_messages : Bool
  pub malloc_text : Bool
  pub template : Template

unfoldable pub rendered : Rendering → List ChatMessage → Rendered
rendered r ms = render_prompt r.use_chatml_fallback r.malloc_messages r.malloc_text r.template ms

module _ {F : Type 0} (b : Backend F) {S : Type 0} (eng : Engine) (params : SampleParams F)
    (chain : List (Sampler F)) (cb : S → Bytes → S × Bool) (env : ℕ → Signals) (malloc : Bool) where
  open b use {model}

  -- What follows the rendering. The token counts that a refusal leaves alone are those of a new job.
  unfoldable pub answer : Rendered → model.Ctx → S → Option (Outcome (model.Ctx) S)
  answer (refused why) ctx user = some (failed b eng params chain cb env malloc ctx user 0 why)
  answer (prompt text) ctx user = complete b eng params chain cb env malloc text ctx user

  unfoldable pub inference_chat :
      Rendering → List ChatMessage → model.Ctx → S → Option (Outcome (model.Ctx) S)
  unfolding answer
  inference_chat r ms ctx user = answer (rendered r ms) ctx user
