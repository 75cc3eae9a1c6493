-- ===== src/Config/Bounds.antt =====
-- What holds of every configuration that the daemon starts with.
use professor_ai.Prelude.{
  ◌≡◌, ◌≢◌, inl, inr, true, false, Option, none, some, List, [], ◌∷◌, arith, Bool-cases,
  Option-cases,
}
use professor_ai.Prelude.Int.{pos, ◌≤ℤ◌}
use professor_ai.Prelude.Bytes.{Bytes}
use professor_ai.Float.{Floats}
use professor_ai.Config.{Config, LimitsOk}
use professor_ai.Config.Parse
use professor_ai.Config.Parse.{Setting, add_ips, add_list, assign, config_defaults, tokens}
use professor_ai.Config.Load
use professor_ai.Config.Load.{
  parse_line, find_config, load, finish, set_config_field, load_lines, config_load_file,
  config_parse_cli, config_validate, configure,
}
use professor_ai.Config.Fit.{
  IsFit, ParsedFit, load_lines-IsFit, config_parse_cli-IsFit, find_config-IsFit, defaults-IsFit,
}

is_nil-false : (s : Bytes) → Parse.is_nil s ≡ false → s ≢ []
unfolding Parse.is_nil
is_nil-false [] h e = cc
is_nil-false (c ∷ s) h e = cc

module _ (fl : Floats) where
  open fl use {F}

  -- What `config_validate` checks.
  pub record IsValidated (cfg : Config F) : Type 0 where
    pub has_model : cfg.model_path ≢ []
    pub limits : LimitsOk cfg
    pub seconds : pos 1 ≤ℤ cfg.max_inference_seconds

  validate-IsValidated : (cfg : Config F) → config_validate fl cfg ≡ true → IsValidated cfg
  unfolding config_validate
  validate-IsValidated cfg h =
      let named : Parse.is_nil cfg.model_path ≡ false = ground (arith, h) in
      record {
        has_model = is_nil-false cfg.model_path named;
        limits = record { tokens_pos = ground (arith, h); tokens_le = ground (arith, h) };
        seconds = ground (arith, h);
      }

  loaded-IsFit :
      (cfg : Config F) (file : Option Bytes) (cfg' : Config F)
      → IsFit cfg
      → config_load_file fl cfg file ≡ some cfg'
      → IsFit cfg'
  unfolding config_load_file
  loaded-IsFit cfg none cfg' fit e = absurd (ground (arith, e))
  loaded-IsFit cfg (some text) cfg' fit e =
      let same : load_lines fl cfg (Load.lines 1023 0 text) ≡ cfg' = ground (arith, e) in
      rw (← same) (load_lines-IsFit fl (Load.lines 1023 0 text) cfg fit)

  load-IsFit :
      (file : Bytes → Option Bytes) (cfg cfg' : Config F)
      → IsFit cfg
      → load fl file cfg ≡ some cfg'
      → IsFit cfg'
  unfolding load
  load-IsFit file cfg cfg' fit e = elim (Bool-cases (Parse.is_nil cfg.config_file)) [
    | inl h ↦ let same : cfg ≡ cfg' = ground (arith, e) in rw (← same) fit
    | inr h ↦ loaded-IsFit cfg (file cfg.config_file) cfg' fit (rw h at e)
  ]

  finished-IsReady :
      (r : Load.Parsed fl) (cfg : Config F)
      → ParsedFit fl r
      → finish fl r ≡ some cfg
      → IsFit cfg × IsValidated cfg
  unfolding finish
  finished-IsReady Load.helped cfg fit e = absurd (ground (arith, e))
  finished-IsReady Load.failed cfg fit e = absurd (ground (arith, e))
  finished-IsReady (Load.parsed got) cfg fit e = elim (Bool-cases (config_validate fl got)) [
    | inl ok ↦
        let same : got ≡ cfg = ground (arith, e) in rw (← same) (fit, validate-IsValidated got ok)
    | inr bad ↦ absurd (ground (arith, e))
  ]

  -- Whatever the file and the command line say, a configuration that the daemon starts with has strings
  -- that fit their arrays, at most 16 addresses, a model's path, a budget of tokens between 1 and
  -- `n_ctx`, and a time limit above zero.
  pub configure-IsReady :
      (file : Bytes → Option Bytes) (args : List Bytes) (cfg : Config F)
      → configure fl file args ≡ some cfg
      → IsFit cfg × IsValidated cfg
  unfolding configure
  configure-IsReady file args cfg e =
      let first = find_config fl (config_defaults fl) args in
      let first_fits = find_config-IsFit fl args (config_defaults fl) (defaults-IsFit fl) in
      elim (Option-cases (load fl file first)) [
        | inl n ↦ absurd (ground (arith, e, n))
        | inr (cfg', n) ↦
            finished-IsReady (config_parse_cli fl cfg' args) cfg
              (config_parse_cli-IsFit fl args cfg' (load-IsFit file first cfg' first_fits n))
              (rw (n, configure) at e)
      ]
