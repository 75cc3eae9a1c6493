-- ===== src/Inference/Generate.antt =====
-- src/inference.c: the generation loop of `inference_complete`. llama.cpp is a parameter.
use professor_ai.Prelude.{
  ℕ, zero, suc, ◌+◌, ◌%◌, Bool, not, ◌&&◌, Option, none, some, List, [], ◌∷◌, if◌then◌else◌, ltb,
  ◌==◌,
}
use professor_ai.Prelude.Bytes.{Bytes}
use professor_ai.Inference.Window.{push_piece, any_stop}

-- The texts that the code writes into `finish_reason`; `unset` is the zeroed buffer of a new job.
pub data FinishReason : Type 0 where
  unset length_limit stop abort time_limit context_overflow backend_error : FinishReason

-- What one token's decoding and sampling take from llama.cpp. `sample` is `llama_sampler_sample`
-- with `llama_sampler_accept`; `piece` is `llama_token_to_piece` on 255 bytes, `none` for a negative
-- result; `decode` tells whether `llama_decode` returned 0.
pub record Model : Type 1 where
  pub Ctx : Type 0
  pub Token : Type 0
  pub sample : Ctx → Token × Ctx
  pub is_eos : Token → Bool
  pub piece : Token → Option Bytes
  pub decode : Ctx → Token → Bool × Ctx

-- What round `i` of the loop reads: `g_shutdown_requested`, `*cancel_flag`, and whether
-- `elapsed_seconds` is above `max_inference_seconds`.
pub record Signals : Type 0 where
  pub shutdown : Bool
  pub cancel : Bool
  pub timed_out : Bool

-- A piece as the callback receives it: a C string.
unfoldable pub c_string : Bytes → Bytes
c_string [] = []
c_string (c ∷ s) = if c == 0 then [] else c ∷ c_string s

-- How the loop watches for stop sequences.
pub record Watch (W : Type 0) : Type 0 where
  pub push : W → Bytes → W
  pub hit : W → Bool

-- `if (params->n_stop > 0)` with the rolling window.
abbrev pub window_watch : ℕ → List Bytes → Watch Bytes
unfolding push_piece any_stop
window_watch n stops = record {
  push = λ w p. if ltb 0 n then push_piece w p else w;
  hit = λ w. ltb 0 n && any_stop n stops w;
}

-- The variables of the loop; `user` is what the callback's `user_data` points to.
pub record Gen (C S W : Type 0) : Type 0 where
  pub ctx : C
  pub user : S
  pub watched : W
  pub generated : ℕ

-- The text of a token; a negative result counts as no text.
unfoldable pub piece_bytes : (m : Model) → m.Token → Bytes
piece_bytes m token = elim (m.piece token) [ none ↦ [] | some p ↦ p ]

module _ (m : Model) {S W : Type 0} (watch : Watch W) (cb : S → Bytes → S × Bool)
    (env : ℕ → Signals) where
  open m use {Ctx, Token, sample, is_eos, decode}

  abbrev pub GenState : Type 0
  GenState = Gen Ctx S W

  -- The checks before a token is sampled.
  unfoldable pub interrupted : ℕ → Option FinishReason
  interrupted i =
      if (env i).shutdown
      then some abort
      else if (env i).cancel
      then some abort
      else if i % 32 == 0 && (env i).timed_out
      then some time_limit
      else none

  -- The state once a token's text is counted and watched.
  unfoldable pub counted : GenState → Ctx → Bytes → GenState
  counted g ctx p = record g {
    ctx = ctx;
    watched = watch.push g.watched p;
    generated = g.generated + 1;
  }

  -- One round. The reason is the one with which the loop is left.
  unfoldable pub round : ℕ → GenState → GenState × Option FinishReason
  unfolding interrupted piece_bytes counted c_string
  round i g = elim (interrupted i) [
    | some why ↦ (g, some why)
    | none ↦
        let (token, ctx) = sample g.ctx in
        let p = piece_bytes m token in
        let g' = counted g ctx p in
        if is_eos token
        then (record g { ctx = ctx }, some stop)
        else if watch.hit g'.watched
        then (g', some stop)
        else (let (user, go_on) = cb g.user (c_string p) in
            let (decoded, ctx') = decode ctx token in
            if not go_on
            then (record g' { user = user }, some abort)
            else if not decoded
            then (record g' { user = user; ctx = ctx' }, some backend_error)
            else (record g' { user = user; ctx = ctx' }, none))
  ]

  -- The loop is left with a reason, or goes on.
  abbrev pub left_or :
      Option FinishReason → GenState → GenState × FinishReason → GenState × FinishReason
  left_or (some why) g rest = (g, why)
  left_or none g rest = rest

  -- `rounds` is `max_gen - i`.
  unfoldable pub generate : ℕ → ℕ → GenState → GenState × FinishReason
  generate zero i g = (g, length_limit)
  generate (suc rounds) i g =
      let next = round i g in
      let rest = generate rounds (i + 1) next.0 in left_or next.1 next.0 rest
