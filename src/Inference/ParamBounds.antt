-- ===== src/Inference/ParamBounds.antt =====
-- src/inference.c: the ranges of the resolved parameters.
use professor_ai.Prelude.{
  ℕ, zero, suc, ◌≤◌, ◌≡◌, refl, ap₂, ◌⊎◌, inl, inr, true, false, List, [], ◌∷◌, arith, take, length,
  Bool-cases,
}
use professor_ai.Prelude.Int.{ℤ, pos, ◌≤ℤ◌}
use professor_ai.Prelude.Bytes.{Bytes, take_all}
use professor_ai.Float.{Floats}
use professor_ai.Api.{ChatRequest}
use professor_ai.Config.{Config, LimitsOk}
use professor_ai.Api.WellFormed.{IsWellFormed, AllFit}
use professor_ai.Inference.{SampleParams}
use professor_ai.Inference.Params.{copy_stops, clamp_f, given_or, max_tokens_of, resolve_params}

-- A budget of tokens that the configuration allows.
abbrev pub IsBudget : {F : Type 0} → Config F → ℤ → Type 0
IsBudget cfg n = (pos 1 ≤ℤ n) × (n ≤ℤ cfg.n_ctx)

copy_stops-eq :
    (room n : ℕ) (stops : List Bytes)
    → length stops ≡ room
    → AllFit stops
    → take n (copy_stops room n stops) ≡ take n stops
unfolding copy_stops
copy_stops-eq zero n [] h f = refl
copy_stops-eq zero n (s ∷ ss) h f = absurd (omega arith)
copy_stops-eq (suc room) zero stops h f = refl
copy_stops-eq (suc room) (suc n) [] h f = absurd (omega arith)
copy_stops-eq (suc room) (suc n) (s ∷ ss) h f =
    ap₂ ◌∷◌ (take_all 63 s (omega arith)) (copy_stops-eq room n ss (omega arith) f.1)

module _ (fl : Floats) where
  open fl use {
    F, is_nan, is_inf, less, zero_f, one_f, two_f, min_top_p, less_asym, zero_less_two,
    one_less_two, min_less_one,
  }

  -- Neither end of the range is passed.
  abbrev pub Within : F → F → F → Type 0
  Within lo hi v = (less v lo ≡ false) × (less hi v ≡ false)

  not-less_self : (a : F) → less a a ≡ false
  not-less_self a = elim (Bool-cases (less a a)) [ inl h ↦ less_asym a a h | inr h ↦ h ]

  clamp_f-Within : (v lo hi : F) → less lo hi ≡ true → Within lo hi (clamp_f fl v lo hi)
  unfolding clamp_f
  clamp_f-Within v lo hi h = ground (arith, less_asym lo hi, not-less_self lo, not-less_self hi)

  -- A missing value (not a number) is the default; a given one is brought into its range, an infinite
  -- one to the lower end.
  abbrev pub DefaultOr : F → F → F → F → F → Type 0
  DefaultOr v default lo hi out =
      ((is_nan v ≡ true) × (out ≡ default))
      ⊎ ((is_nan v ≡ false) × Within lo hi out × ((is_inf v ≡ false) ⊎ (out ≡ lo)))

  given_or-DefaultOr :
      (v default lo hi : F)
      → less lo hi ≡ true
      → DefaultOr v default lo hi (given_or fl v default lo hi)
  unfolding given_or
  given_or-DefaultOr v default lo hi h = elim (Bool-cases (is_nan v)) [
    | inl n ↦ inl (n, rw n)
    | inr n ↦
        inr (n, ground (arith, less_asym lo hi, not-less_self lo, not-less_self hi), ground arith)
  ]

  given_or-Within : (v lo hi : F) → less lo hi ≡ true → Within lo hi (given_or fl v lo lo hi)
  unfolding given_or
  given_or-Within v lo hi h = ground (arith, less_asym lo hi, not-less_self lo, not-less_self hi)

  pub max_tokens_of-IsBudget :
      (cfg : Config F) (asked : ℤ) → LimitsOk cfg → IsBudget cfg (max_tokens_of fl cfg asked)
  unfolding max_tokens_of
  max_tokens_of-IsBudget cfg asked v = ground arith

  -- The parameters of a chat request against its fields and the configuration.
  pub record IsResolved (cfg : Config F) (req : ChatRequest F) (p : SampleParams F) : Type 0 where
    pub temperature : DefaultOr req.temperature cfg.temperature zero_f two_f p.temperature
    pub top_p : DefaultOr req.top_p cfg.top_p min_top_p one_f p.top_p
    pub repeat_penalty :
        DefaultOr req.repeat_penalty cfg.repeat_penalty one_f two_f p.repeat_penalty
    pub frequency_penalty : Within zero_f two_f p.frequency_penalty
    pub presence_penalty : Within zero_f two_f p.presence_penalty
    pub budget : IsBudget cfg p.max_tokens
    pub stops : take p.n_stop p.stop ≡ take req.stop_count req.stop
    pub stop_bound : p.n_stop ≤ 4

  -- For a request that was parsed, and a configuration whose limits were validated, every parameter
  -- is in its range, at the lower end where an infinite value was given, or is the configured
  -- default, `max_tokens` lies between 1 and `n_ctx`, and the stop sequences are those of the request.
  pub resolve_params-IsResolved :
      (cfg : Config F) (req : ChatRequest F)
      → LimitsOk cfg
      → IsWellFormed req
      → IsResolved cfg req (resolve_params fl cfg req)
  unfolding resolve_params
  resolve_params-IsResolved cfg req limits v = record {
    temperature = given_or-DefaultOr req.temperature cfg.temperature zero_f two_f zero_less_two;
    top_p = given_or-DefaultOr req.top_p cfg.top_p min_top_p one_f min_less_one;
    repeat_penalty =
        given_or-DefaultOr req.repeat_penalty cfg.repeat_penalty one_f two_f one_less_two;
    frequency_penalty = given_or-Within req.frequency_penalty zero_f two_f zero_less_two;
    presence_penalty = given_or-Within req.presence_penalty zero_f two_f zero_less_two;
    budget = max_tokens_of-IsBudget cfg req.max_tokens limits;
    stops = copy_stops-eq 4 req.stop_count req.stop v.stop_slots v.stops_fit;
    stop_bound = v.stop_counted;
  }
