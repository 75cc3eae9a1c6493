-- ===== src/Inference/Params.antt =====
-- src/inference.c: `clamp_f`, `clamp_i`, `inference_resolve_params` and
-- `inference_resolve_params_completion`.
use professor_ai.Prelude.{ℕ, zero, suc, Bool, true, false, ◌||◌, List, [], ◌∷◌, if◌then◌else◌}
use professor_ai.Prelude.Int.{ℤ, pos, negsuc, ltb_ℤ}
use professor_ai.Prelude.Bytes.{Bytes, snprintf_s}
use professor_ai.Float.{Floats}
use professor_ai.Api.{ChatRequest, CompletionRequest, stop_max, stop_len}
use professor_ai.Config.{Config}
use professor_ai.Inference.{SampleParams}

-- `clamp_i`
unfoldable pub clamp_i : ℤ → ℤ → ℤ → ℤ
clamp_i v lo hi = if ltb_ℤ v lo then lo else if ltb_ℤ hi v then hi else v

-- `v == -1`
unfoldable pub is_default : ℤ → Bool
is_default (pos n) = false
is_default (negsuc zero) = true
is_default (negsuc (suc n)) = false

-- The `room` slots of `p.stop` after the copy of the first `count` stop sequences.
unfoldable pub copy_stops : ℕ → ℕ → List Bytes → List Bytes
copy_stops zero count stops = []
copy_stops (suc room) zero stops = [] ∷ copy_stops room zero []
copy_stops (suc room) (suc count) [] = [] ∷ copy_stops room count []
copy_stops (suc room) (suc count) (s ∷ stops) = snprintf_s stop_len s ∷ copy_stops room count stops

module _ (fl : Floats) where
  open fl use {F, is_nan, is_inf, less, zero_f, one_f, two_f, min_top_p}

  -- `clamp_f`
  unfoldable pub clamp_f : F → F → F → F
  clamp_f v lo hi =
      if is_nan v || is_inf v then lo else if less v lo then lo else if less hi v then hi else v

  -- `isnan(v) ? default : clamp_f(v, lo, hi)`
  unfoldable pub given_or : F → F → F → F → F
  unfolding clamp_f
  given_or v default lo hi = if is_nan v then default else clamp_f v lo hi

  unfoldable pub max_tokens_of : Config F → ℤ → ℤ
  unfolding clamp_i is_default
  max_tokens_of cfg asked =
      if is_default asked then cfg.max_tokens else clamp_i asked (pos 1) cfg.n_ctx

  unfoldable pub resolve_params : Config F → ChatRequest F → SampleParams F
  unfolding given_or max_tokens_of copy_stops
  resolve_params cfg req = record {
    temperature = given_or req.temperature cfg.temperature zero_f two_f;
    top_p = given_or req.top_p cfg.top_p min_top_p one_f;
    top_k = cfg.top_k;
    repeat_penalty = given_or req.repeat_penalty cfg.repeat_penalty one_f two_f;
    frequency_penalty = given_or req.frequency_penalty zero_f zero_f two_f;
    presence_penalty = given_or req.presence_penalty zero_f zero_f two_f;
    max_tokens = max_tokens_of cfg req.max_tokens;
    max_inference_seconds = cfg.max_inference_seconds;
    stop = copy_stops stop_max req.stop_count req.stop;
    n_stop = req.stop_count;
  }

  unfoldable pub resolve_params_completion : Config F → CompletionRequest F → SampleParams F
  unfolding given_or max_tokens_of copy_stops
  resolve_params_completion cfg req = record {
    temperature = given_or req.temperature cfg.temperature zero_f two_f;
    top_p = given_or req.top_p cfg.top_p min_top_p one_f;
    top_k = cfg.top_k;
    repeat_penalty = given_or req.repeat_penalty cfg.repeat_penalty one_f two_f;
    frequency_penalty = zero_f;
    presence_penalty = zero_f;
    max_tokens = max_tokens_of cfg req.max_tokens;
    max_inference_seconds = cfg.max_inference_seconds;
    stop = copy_stops stop_max req.stop_count req.stop;
    n_stop = req.stop_count;
  }
