-- ===== src/Worker/Answer.antt =====
-- src/worker.c and src/inference.c: what a job's callback has collected when its inference ends.
use professor_ai.Prelude.{
  ℕ, ◌+◌, ◌<◌, ◌≤◌, ◌≡◌, refl, sym, ap, ◌∙◌, ◌⊎◌, inl, inr, Bool, true, false, Option, some, List,
}
use mathlib.Core.Path.{subst}
use professor_ai.Prelude.Bytes.{Bytes}
use professor_ai.Inference.{SampleParams}
use professor_ai.Inference.Generate.{Signals}
use professor_ai.Inference.Pieces.{Collects, HasShortPieces}
use professor_ai.Inference.Complete.{Sampler, Backend, Engine, Outcome, complete, failed}
use professor_ai.Inference.CompleteLaws.{IsFailure, complete-Returns}
use professor_ai.Inference.Reply.{opening, IsReply, complete-IsReply}
use professor_ai.Inference.Chat.{Rendered, prompt, refused}
use professor_ai.Inference.Run.{Rendering, answer, inference_chat}
use professor_ai.Inference.Refusal.{IsProper, rendered-IsProper}
use professor_ai.Worker.Run.{Ask, ask_chat, ask_completion, asked, infer}

module _ {F : Type 0} (b : Backend F) (eng : Engine) (params : SampleParams F)
    (chain : List (Sampler F)) (env : ℕ → Signals) (malloc : Bool) {S : Type 0} {limit : ℕ}
    {cb : S → Bytes → S × Bool} (col : Collects limit cb) (short : HasShortPieces limit b.model)
    (user : S) (held : col.Holds user) where
  open b use {model}

  -- The outcome is the model's answer to a prompt of that text, and its tokens fit the context.
  abbrev pub Answers : Rendered → model.Ctx → Outcome (model.Ctx) S → Type 0
  Answers asked ctx0 out =
      (text : Bytes) × (ctx : model.Ctx) × (n : ℕ) × (asked ≡ prompt text)
      × (opening b eng params chain text ctx0 ≡ some (ctx, n))
      × IsReply b eng params chain cb col short env malloc user out ctx n
      × (out.prompt_tokens + out.completion_tokens ≤ eng.n_ctx)

  -- The inference ends, with such an answer, or as failed with nothing generated or collected.
  abbrev pub Settles : Rendered → model.Ctx → Option (Outcome (model.Ctx) S) → Type 0
  Settles asked ctx0 r =
      (out : Outcome (model.Ctx) S) × (r ≡ some out)
      × ((out.ok ≡ true) × Answers asked ctx0 out
          ⊎ (out.ok ≡ false)
            × (out.completion_tokens ≡ 0)
            × (out.user ≡ user)
            × IsFailure out.reason)

  -- One that ends as done has such an answer.
  pub done-Answers :
      (asked : Rendered) (ctx0 : model.Ctx) (r : Option (Outcome (model.Ctx) S))
      (out : Outcome (model.Ctx) S)
      → Settles asked ctx0 r
      → r ≡ some out
      → out.ok ≡ true
      → Answers asked ctx0 out
  done-Answers asked ctx0 r out (out', e', inl (ok', answers)) e ok =
      let same : out' ≡ out = cc in subst (Answers asked ctx0) same answers
  done-Answers asked ctx0 r out (out', e', inr (bad, none_made, untouched, why)) e ok =
      let same : out' ≡ out = cc in
      let both : false ≡ true = sym bad ∙ ap (λ (o : Outcome (model.Ctx) S). o.ok) same ∙ ok in cc

  complete-Settles :
      (text : Bytes) (ctx0 : model.Ctx)
      → 0 < eng.n_batch
      → Settles (prompt text) ctx0 (complete b eng params chain cb env malloc text ctx0 user)
  complete-Settles text ctx0 h =
      let (out, e, ends) = complete-Returns b eng params chain cb env malloc text ctx0 user h in
      elim ends [
        | inl (ok, fits, budget) ↦
            let (ctx, n, start, reply) =
              complete-IsReply b eng params chain cb col short env malloc text ctx0 user out held e
                ok in
            (out, e, inl (ok, (text, ctx, n, refl, start, reply, fits)))
        | inr failure ↦ (out, e, inr failure)
      ]

  answer-Settles :
      (asked : Rendered) (ctx0 : model.Ctx)
      → 0 < eng.n_batch
      → IsProper asked
      → Settles asked ctx0 (answer b eng params chain cb env malloc asked ctx0 user)
  unfolding answer
  answer-Settles (refused why) ctx0 h proper = (
    failed b eng params chain cb env malloc ctx0 user 0 why,
    refl,
    inr (refl, refl, refl, proper),
  )
  answer-Settles (prompt text) ctx0 h proper = complete-Settles text ctx0 h

  infer-answer :
      (r : Rendering) (ask : Ask) (ctx0 : model.Ctx)
      → infer b eng params chain env malloc r cb ask ctx0 user
        ≡ answer b eng params chain cb env malloc (asked r ask) ctx0 user
  unfolding infer inference_chat answer asked
  infer-answer r (ask_chat ms) ctx0 = refl
  infer-answer r (ask_completion text) ctx0 = refl

asked-IsProper : (r : Rendering) (ask : Ask) → IsProper (asked r ask)
unfolding asked
asked-IsProper r (ask_completion text) = tt
asked-IsProper r (ask_chat ms) = rendered-IsProper r ms

-- An inference for a job ends, whatever its callback.
pub infer-Settles :
    {F : Type 0} (b : Backend F) (eng : Engine) (params : SampleParams F) (chain : List (Sampler F))
    (env : ℕ → Signals) (malloc : Bool) {S : Type 0} {limit : ℕ} {cb : S → Bytes → S × Bool}
    (col : Collects limit cb) (short : HasShortPieces limit b.model) (user : S)
    (held : col.Holds user) (r : Rendering) (ask : Ask) (ctx0 : b.model.Ctx)
    → 0 < eng.n_batch
    → Settles b eng params chain env malloc col short user held
        (asked r ask)
        ctx0
        (infer b eng params chain env malloc r cb ask ctx0 user)
infer-Settles b eng params chain env malloc col short user held r ask ctx0 h =
    rw (infer-answer b eng params chain env malloc col short user held r ask ctx0) (
      answer-Settles b eng params chain env malloc col short user held (asked r ask) ctx0 h
        (asked-IsProper r ask))
