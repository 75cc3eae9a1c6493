-- ===== src/Inference/Complete.antt =====
-- src/inference.c: `inference_complete` around its generation loop. The engine's `n_ctx` and
-- `n_batch` are taken as numbers: a negative `n_batch` of the configuration is not modelled.
use professor_ai.Prelude.{
  ℕ, zero, suc, Bool, true, false, not, ◌&&◌, ◌||◌, Option, none, some, List, [], ◌∷◌,
  if◌then◌else◌, ltb, leb, ◌==◌, length, take, drop,
}
use professor_ai.Prelude.Int.{ℤ, pos, negsuc, ltb_ℤ, pos_part, ◌+ℤ◌, ◌-ℤ◌}
use professor_ai.Prelude.Bytes.{Bytes}
use professor_ai.Float.{Floats}
use professor_ai.Inference.{SampleParams}
use professor_ai.Inference.Generate.{
  FinishReason, context_overflow, backend_error, Model, Signals, Gen, generate, window_watch,
}

-- The samplers of the chain, with their arguments; `penalties` looks at the last 256 tokens.
pub data Sampler (F : Type 0) : Type 0 where
  greedy : Sampler F
  penalties : F → F → F → Sampler F
  top_k : ℤ → Sampler F
  top_p : F → Sampler F
  temp : F → Sampler F
  dist : Sampler F

-- The other calls of llama.cpp. `count_tokens` is `llama_tokenize` with no buffer; `tokenize` is the
-- call with room for so many tokens, `none` for a negative result; `decode_batch` is `llama_decode`
-- with its result code; `make_chain` is `none` where `llama_sampler_chain_init` returns NULL.
pub record Backend (F : Type 0) : Type 1 where
  pub model : Model
  pub clear : model.Ctx → model.Ctx
  pub count_tokens : Bytes → ℤ
  pub tokenize : Bytes → ℕ → Option (List (model.Token))
  pub decode_batch : model.Ctx → List (model.Token) → ℤ × model.Ctx
  pub make_chain : model.Ctx → List (Sampler F) → Option (model.Ctx)

-- The fields of `inference_engine_t` that are read here.
pub record Engine : Type 0 where
  pub n_ctx : ℕ
  pub n_batch : ℕ

-- `n_tokens = (n_required < 0) ? -n_required : n_required`
unfoldable pub needed_tokens : ℤ → ℕ
needed_tokens (pos n) = n
needed_tokens (negsuc n) = suc n

-- The cap of `max_tokens` to the context that is left, where the sum is an `int32_t`: with `max_tokens` at
-- most `n_ctx` and fewer prompt tokens than that, it is for every context below 2^30 tokens.
unfoldable pub cap_tokens : ℕ → ℕ → ℤ → ℤ
cap_tokens n_ctx n_prompt asked =
    if ltb_ℤ (pos n_ctx) (pos n_prompt +ℤ asked) then pos n_ctx -ℤ pos n_prompt else asked

-- What the call leaves in its output parameters, and whether it returns 0.
pub record Outcome (C S : Type 0) : Type 0 where
  pub ok : Bool
  pub prompt_tokens : ℕ
  pub completion_tokens : ℕ
  pub reason : FinishReason
  pub ctx : C
  pub user : S

module _ (fl : Floats) where
  open fl use {F, is_nan, less, zero_f, one_f}

  -- `v != 0.0f`
  unfoldable pub nonzero : F → Bool
  nonzero v = is_nan v || less v zero_f || less zero_f v

  -- `v <= 0.0f`
  unfoldable pub le_zero : F → Bool
  le_zero v = not (is_nan v) && not (less zero_f v)

  -- The sampler chain.
  unfoldable pub sampler_chain : SampleParams F → List (Sampler F)
  unfolding nonzero le_zero
  sampler_chain p =
      if le_zero p.temperature
      then greedy ∷ []
      else (let tail = top_k p.top_k ∷ top_p p.top_p ∷ temp p.temperature ∷ dist ∷ [] in
          if less one_f p.repeat_penalty
            || nonzero p.frequency_penalty
            || nonzero p.presence_penalty
          then penalties p.repeat_penalty p.frequency_penalty p.presence_penalty ∷ tail
          else tail)

module _ {F : Type 0} (b : Backend F) where
  open b use {model, clear, count_tokens, tokenize, decode_batch, make_chain}

  -- `rc != 0` ends the loop: `rc == 1 ? "context_overflow" : "backend_error"`.
  abbrev pub after_decode :
      ℤ
      → model.Ctx
      → Option (model.Ctx × Option FinishReason)
      → Option (model.Ctx × Option FinishReason)
  after_decode (pos zero) ctx rest = rest
  after_decode (pos (suc zero)) ctx rest = some (ctx, some context_overflow)
  after_decode _ ctx rest = some (ctx, some backend_error)

  -- The prompt in batches of `n_batch`, on fuel; the list holds the tokens that are left. `none`
  -- means that the fuel ran out, `some (some why)` a failed decode.
  unfoldable pub feed :
      ℕ → ℕ → model.Ctx → List (model.Token) → Option (model.Ctx × Option FinishReason)
  feed zero n_batch ctx [] = some (ctx, none)
  feed zero n_batch ctx (t ∷ ts) = none
  feed (suc fuel) n_batch ctx [] = some (ctx, none)
  feed (suc fuel) n_batch ctx (t ∷ ts) =
      let left = t ∷ ts in
      let chunk = if ltb n_batch (length left) then n_batch else length left in
      let (rc, ctx') = decode_batch ctx (take chunk left) in
      let rest = feed fuel n_batch ctx' (drop chunk left) in after_decode rc ctx' rest

  module _ {S : Type 0} (eng : Engine) (params : SampleParams F) (chain : List (Sampler F))
      (cb : S → Bytes → S × Bool) (env : ℕ → Signals) (malloc : Bool) where
    abbrev pub failed : model.Ctx → S → ℕ → FinishReason → Outcome (model.Ctx) S
    failed ctx user n why = record {
      ok = false;
      prompt_tokens = n;
      completion_tokens = 0;
      reason = why;
      ctx = ctx;
      user = user;
    }

    -- From the sampler chain to the end.
    unfoldable pub run_loop : model.Ctx → S → ℕ → ℕ → Outcome (model.Ctx) S
    run_loop ctx user n_prompt max_gen = elim (make_chain ctx chain) [
      | none ↦ failed ctx user n_prompt backend_error
      | some ctx' ↦
          let start : Gen (model.Ctx) S Bytes = record {
            ctx = ctx';
            user = user;
            watched = [];
            generated = 0;
          } in
          let done =
            generate model (window_watch params.n_stop params.stop) cb env max_gen 0 start in
          record {
            ok = true;
            prompt_tokens = n_prompt;
            completion_tokens = done.0.generated;
            reason = done.1;
            ctx = done.0.ctx;
            user = done.0.user;
          }
    ]

    -- A failed batch ends the call; after the last one the loop starts.
    unfoldable pub after_feed :
        S → ℕ → ℕ → Option (model.Ctx × Option FinishReason) → Option (Outcome (model.Ctx) S)
    after_feed user n_prompt max_gen none = none
    after_feed user n_prompt max_gen (some (ctx, some why)) = some (failed ctx user n_prompt why)
    after_feed user n_prompt max_gen (some (ctx, none)) = some (run_loop ctx user n_prompt max_gen)

    -- The cap on `max_tokens`, and the prompt.
    unfoldable pub run_prompt : model.Ctx → S → List (model.Token) → Option (Outcome (model.Ctx) S)
    run_prompt ctx user tokens =
        let n_prompt = length tokens in
        let max_gen = cap_tokens eng.n_ctx n_prompt params.max_tokens in
        if not (ltb_ℤ (pos 0) max_gen)
        then some (failed ctx user n_prompt context_overflow)
        else after_feed user n_prompt (pos_part max_gen) (feed n_prompt eng.n_batch ctx tokens)

    -- `inference_complete`; `none` only where the loop over the prompt does not end.
    unfoldable pub complete : Bytes → model.Ctx → S → Option (Outcome (model.Ctx) S)
    complete prompt ctx0 user =
        let ctx = clear ctx0 in
        let n_tokens = needed_tokens (count_tokens prompt) in
        if n_tokens == 0
        then some (failed ctx user 0 backend_error)
        else if leb eng.n_ctx n_tokens
        then some (failed ctx user 0 context_overflow)
        else if not malloc
        then some (failed ctx user 0 backend_error)
        else elim (tokenize prompt n_tokens) [
          | none ↦ some (failed ctx user 0 backend_error)
          | some tokens ↦ run_prompt ctx user tokens
        ]
