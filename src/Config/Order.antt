-- ===== src/Config/Order.antt =====
-- src/config.c: settings that come in another order, or twice.
use professor_ai.Prelude.{
  ℕ, ◌≡◌, ◌≢◌, refl, sym, ap, ◌∙◌, ◌⊎◌, inl, inr, Option, none, some, List, [], ◌∷◌, ◌++◌, arith,
  ℕ_discrete,
}
use professor_ai.Prelude.Bytes.{Bytes}
use professor_ai.Float.{Floats}
use professor_ai.Config.{Config}
use professor_ai.Config.Parse.{
  Setting, model_path, model_alias, n_ctx, n_gpu_layers, n_batch, n_threads, temperature, top_p,
  top_k, repeat_penalty, max_tokens, listen_addr, api_key, max_inference_seconds, stats_interval,
  daemonize, pid_file, log_level, log_file, allow_ip, config_file, assign,
}
use professor_ai.Config.Settings.{key_setting, kind, takes}
use professor_ai.Config.Load.{parse_line, set_config_field, load_lines, config_parse_cli}

-- What a line of the file sets, and to what.
unfoldable pub keyed : Option (Bytes × Bytes) → Option (Setting × Bytes)
keyed none = none
keyed (some (key, value)) = elim (key_setting key) [ none ↦ none | some f ↦ some (f, value) ]

abbrev pub setting_of : Bytes → Option (Setting × Bytes)
unfolding keyed
setting_of line = keyed (parse_line line)

-- Two lines do not set the same.
abbrev pub Apart : Option (Setting × Bytes) → Option (Setting × Bytes) → Type 0
Apart (some (f, v)) (some (g, w)) = f ≢ g
Apart none o = Unit {0}
Apart (some s) none = Unit {0}

-- The lines of a file in another order: neighbours that do not set the same change places.
pub data Reordered : List Bytes → List Bytes → Type 0 where
  done : Reordered [] []
  keep : (l : Bytes) {ls ls' : List Bytes} → Reordered ls ls' → Reordered (l ∷ ls) (l ∷ ls')
  exchange :
      (a b : Bytes) (ls : List Bytes)
      → Apart (setting_of a) (setting_of b)
      → Reordered (a ∷ b ∷ ls) (b ∷ a ∷ ls)
  chain : {ls ms ns : List Bytes} → Reordered ls ms → Reordered ms ns → Reordered ls ns

-- A number for each setting.
unfoldable number : Setting → ℕ
number model_path = 0
number model_alias = 1
number n_ctx = 2
number n_gpu_layers = 3
number n_batch = 4
number n_threads = 5
number temperature = 6
number top_p = 7
number top_k = 8
number repeat_penalty = 9
number max_tokens = 10
number listen_addr = 11
number api_key = 12
number max_inference_seconds = 13
number stats_interval = 14
number daemonize = 15
number pid_file = 16
number log_level = 17
number log_file = 18
number allow_ip = 19
number config_file = 20

same_number : (f g : Setting) → number f ≡ number g → f ≡ g
unfolding number
same_number f g e = ground arith

same_or_apart : (f g : Setting) → (f ≡ g) ⊎ (f ≢ g)
same_or_apart f g = elim (ℕ_discrete (number f) (number g)) [
  | yes e ↦ inl (same_number f g e)
  | no ne ↦ inr λ e. ne (ap number e)
]

module _ (fl : Floats) where
  open fl use {F}

  -- Different settings do not touch each other.
  assign_comm :
      (f g : Setting) (v w : Bytes) (cfg : Config F)
      → f ≢ g
      → assign fl f v (assign fl g w cfg) ≡ assign fl g w (assign fl f v cfg)
  unfolding assign
  assign_comm f g v w cfg apart = ground arith

  -- The later value of a setting counts.
  assign_again :
      (f : Setting) (v w : Bytes) (cfg : Config F)
      → f ≢ allow_ip
      → assign fl f v (assign fl f w cfg) ≡ assign fl f v cfg
  unfolding assign
  assign_again f v w cfg one = ground arith

  abbrev apply : Option (Setting × Bytes) → Config F → Config F
  apply none cfg = cfg
  apply (some (f, v)) cfg = assign fl f v cfg

  load_lines-apply :
      (l : Bytes) (ls : List Bytes) (cfg : Config F)
      → load_lines fl cfg (l ∷ ls) ≡ load_lines fl (apply (setting_of l) cfg) ls
  unfolding load_lines set_config_field keyed
  load_lines-apply l ls cfg = ground arith

  apply_comm :
      (a b : Option (Setting × Bytes)) (cfg : Config F)
      → Apart a b
      → apply b (apply a cfg) ≡ apply a (apply b cfg)
  apply_comm none b cfg apart = refl
  apply_comm (some s) none cfg apart = refl
  apply_comm (some (f, v)) (some (g, w)) cfg apart = assign_comm g f w v cfg (λ e. apart (sym e))

  -- Two files whose lines differ only in the order of lines that set different things are loaded to
  -- the same configuration.
  pub load_lines-Reordered :
      {ls ls' : List Bytes} (cfg : Config F)
      → Reordered ls ls'
      → load_lines fl cfg ls ≡ load_lines fl cfg ls'
  load_lines-Reordered cfg done = refl
  load_lines-Reordered cfg (keep l {ls} {ls'} r) =
      load_lines-apply l ls cfg
      ∙ load_lines-Reordered (apply (setting_of l) cfg) r
      ∙ sym (load_lines-apply l ls' cfg)
  load_lines-Reordered cfg (exchange a b ls apart) =
      load_lines-apply a (b ∷ ls) cfg
      ∙ load_lines-apply b ls (apply (setting_of a) cfg)
      ∙ ap (λ c. load_lines fl c ls) (apply_comm (setting_of a) (setting_of b) cfg apart)
      ∙ sym (load_lines-apply a ls (apply (setting_of b) cfg))
      ∙ sym (load_lines-apply b (a ∷ ls) cfg)
  load_lines-Reordered cfg (chain r q) = load_lines-Reordered cfg r ∙ load_lines-Reordered cfg q

  -- One line, before the setting is given again behind the rest.
  over_line :
      (f : Setting) (v w : Bytes) (ls : List Bytes) (o : Option (Setting × Bytes)) (cfg : Config F)
      → f ≢ allow_ip
      → ((c : Config F)
          → assign fl f v (load_lines fl (assign fl f w c) ls) ≡ assign fl f v (load_lines fl c ls))
      → assign fl f v (load_lines fl (apply o (assign fl f w cfg)) ls)
        ≡ assign fl f v (load_lines fl (apply o cfg) ls)
  over_line f v w ls none cfg one ih = ih cfg
  over_line f v w ls (some (g, u)) cfg one ih = elim (same_or_apart g f) [
    | inl same ↦ rw same (ap (λ c. assign fl f v (load_lines fl c ls)) (assign_again f u w cfg one))
    | inr apart ↦
        ap (λ c. assign fl f v (load_lines fl c ls)) (assign_comm g f u w cfg apart)
        ∙ ih (assign fl g u cfg)
  ]

  over_lines :
      (f : Setting) (v w : Bytes) (ls : List Bytes) (cfg : Config F)
      → f ≢ allow_ip
      → assign fl f v (load_lines fl (assign fl f w cfg) ls) ≡ assign fl f v (load_lines fl cfg ls)
  unfolding load_lines
  over_lines f v w [] cfg one = assign_again f v w cfg one
  over_lines f v w (l ∷ ls) cfg one =
      ap (assign fl f v) (load_lines-apply l ls (assign fl f w cfg))
      ∙ over_line f v w ls (setting_of l) cfg one (λ c. over_lines f v w ls c one)
      ∙ ap (assign fl f v) (sym (load_lines-apply l ls cfg))

  option_assigns :
      (f : Setting) (arg val : Bytes) (args : List Bytes) (cfg : Config F)
      → kind arg ≡ takes f
      → config_parse_cli fl cfg (arg ∷ val ∷ args) ≡ config_parse_cli fl (assign fl f val cfg) args
  unfolding config_parse_cli
  option_assigns f arg val args cfg asks = ground (arith, asks)

  -- An option of the command line makes a line of the file that sets the same, other than `allow_ip`,
  -- of no account, wherever the line stands.
  pub config_parse_cli_overrides :
      (before after : List Bytes) (l : Bytes) (f : Setting) (w arg val : Bytes) (args : List Bytes)
      (cfg : Config F)
      → setting_of l ≡ some (f, w)
      → kind arg ≡ takes f
      → f ≢ allow_ip
      → config_parse_cli fl (load_lines fl cfg (before ++ l ∷ after)) (arg ∷ val ∷ args)
        ≡ config_parse_cli fl (load_lines fl cfg (before ++ after)) (arg ∷ val ∷ args)
  config_parse_cli_overrides [] after l f w arg val args cfg sets asks one =
      let loads = load_lines-apply l after cfg ∙ ap (λ o. load_lines fl (apply o cfg) after) sets in
      option_assigns f arg val args (load_lines fl cfg (l ∷ after)) asks
      ∙ ap (λ c. config_parse_cli fl c args)
          (ap (assign fl f val) loads ∙ over_lines f val w after cfg one)
      ∙ sym (option_assigns f arg val args (load_lines fl cfg after) asks)
  config_parse_cli_overrides (b ∷ before) after l f w arg val args cfg sets asks one =
      ap (λ c. config_parse_cli fl c (arg ∷ val ∷ args))
        (load_lines-apply b (before ++ l ∷ after) cfg)
      ∙ config_parse_cli_overrides before after l f w arg val args (apply (setting_of b) cfg) sets
          asks one
      ∙ sym (
          ap (λ c. config_parse_cli fl c (arg ∷ val ∷ args))
            (load_lines-apply b (before ++ after) cfg))
