-- ===== src/Config/Fit.antt =====
-- src/config.c: every function that sets a field keeps the strings within their arrays.
use professor_ai.Prelude.{
  ◌≤◌, ◌<◌, ◌≡◌, refl, ◌⊎◌, inl, inr, not, ◌&&◌, List, [], ◌∷◌, ◌++◌, ltb, arith, length,
  Bool-cases, Option-cases, length-append,
}
use professor_ai.Prelude.Int.{pos}
use professor_ai.Prelude.Bytes.{Bytes, length-snprintf, snprintf_s}
use professor_ai.Float.{Floats}
use professor_ai.Config.{Config}
use professor_ai.Config.Parse
use professor_ai.Config.Parse.{Setting, add_ips, add_list, assign, config_defaults, tokens}
use professor_ai.Config.Settings
use professor_ai.Config.Settings.{key_setting, kind, Kind}
use professor_ai.Config.Load
use professor_ai.Config.Load.{
  parse_line, find_config, load, finish, set_config_field, load_lines, config_load_file,
  config_parse_cli, config_validate, configure,
}

abbrev pub AllShort : List Bytes → Type 0
AllShort [] = Unit {0}
AllShort (s ∷ ss) = (length s < 64) × AllShort ss

-- Every string fits its array, and the list of addresses its 16 slots.
pub record IsFit {F : Type 0} (cfg : Config F) : Type 0 where
  pub model_path : length cfg.model_path < 512
  pub model_alias : length cfg.model_alias < 128
  pub listen_addr : length cfg.listen_addr < 64
  pub api_key : length cfg.api_key < 128
  pub pid_file : length cfg.pid_file < 512
  pub log_file : length cfg.log_file < 512
  pub config_file : length cfg.config_file < 512
  pub acl_count : length cfg.acl ≤ 16
  pub acl : AllShort cfg.acl

AllShort-append :
    (acl : List Bytes) (ip : Bytes) → AllShort acl → length ip < 64 → AllShort (acl ++ ip ∷ [])
AllShort-append [] ip a h = (h, tt)
AllShort-append (x ∷ acl) ip a h = (a.0, AllShort-append acl ip a.1 h)

add_ips-lem :
    (ts acl : List Bytes)
    → length acl ≤ 16
    → AllShort acl
    → (length (add_ips ts acl) ≤ 16) × AllShort (add_ips ts acl)
unfolding add_ips
add_ips-lem [] acl n a = (n, a)
add_ips-lem (t ∷ ts) acl n a =
    let ip = snprintf_s 64 (Parse.trim t) in
    elim (Bool-cases (ltb (length acl) 16 && not (Parse.is_nil (Parse.trim t)))) [
      | inl h ↦
          let more = length-append acl (ip ∷ []) in
          let room : length (acl ++ ip ∷ []) ≤ 16 = ground (arith, more) in
          rw h (
            add_ips-lem ts (acl ++ ip ∷ []) room
              (AllShort-append acl ip a (length-snprintf 64 (Parse.trim t) (omega arith))))
      | inr h ↦ rw h (add_ips-lem ts acl n a)
    ]

Kind-cases :
    (k : Kind)
    → (k ≡ Settings.help)
      ⊎ (k ≡ Settings.skip)
      ⊎ (k ≡ Settings.daemon)
      ⊎ (k ≡ Settings.unknown)
      ⊎ ((f : Setting) × (k ≡ Settings.takes f))
Kind-cases Settings.help = inl refl
Kind-cases Settings.skip = inr (inl refl)
Kind-cases Settings.daemon = inr (inr (inl refl))
Kind-cases Settings.unknown = inr (inr (inr (inl refl)))
Kind-cases (Settings.takes f) = inr (inr (inr (inr (f, refl))))

module _ (fl : Floats) where
  open fl use {F}

  assign-IsFit : (f : Setting) (v : Bytes) (cfg : Config F) → IsFit cfg → IsFit (assign fl f v cfg)
  unfolding assign add_list
  assign-IsFit Parse.model_path v cfg fit =
      let short = length-snprintf 512 v (omega arith) in ground (arith, short)
  assign-IsFit Parse.model_alias v cfg fit =
      let short = length-snprintf 128 v (omega arith) in ground (arith, short)
  assign-IsFit Parse.n_ctx v cfg fit = ground arith
  assign-IsFit Parse.n_gpu_layers v cfg fit = ground arith
  assign-IsFit Parse.n_batch v cfg fit = ground arith
  assign-IsFit Parse.n_threads v cfg fit = ground arith
  assign-IsFit Parse.temperature v cfg fit = ground arith
  assign-IsFit Parse.top_p v cfg fit = ground arith
  assign-IsFit Parse.top_k v cfg fit = ground arith
  assign-IsFit Parse.repeat_penalty v cfg fit = ground arith
  assign-IsFit Parse.max_tokens v cfg fit = ground arith
  assign-IsFit Parse.listen_addr v cfg fit =
      let short = length-snprintf 64 v (omega arith) in ground (arith, short)
  assign-IsFit Parse.api_key v cfg fit =
      let short = length-snprintf 128 v (omega arith) in ground (arith, short)
  assign-IsFit Parse.max_inference_seconds v cfg fit = ground arith
  assign-IsFit Parse.stats_interval v cfg fit = ground arith
  assign-IsFit Parse.daemonize v cfg fit = ground arith
  assign-IsFit Parse.pid_file v cfg fit =
      let short = length-snprintf 512 v (omega arith) in ground (arith, short)
  assign-IsFit Parse.log_level v cfg fit = ground arith
  assign-IsFit Parse.log_file v cfg fit =
      let short = length-snprintf 512 v (omega arith) in ground (arith, short)
  assign-IsFit Parse.allow_ip v cfg fit =
      let added = add_ips-lem (tokens (snprintf_s 1024 v)) cfg.acl fit.acl_count fit.acl in
      ground (arith, added)
  assign-IsFit Parse.config_file v cfg fit =
      let short = length-snprintf 512 v (omega arith) in ground (arith, short)

  set_config_field-IsFit :
      (cfg : Config F) (key value : Bytes) → IsFit cfg → IsFit (set_config_field fl cfg key value)
  unfolding set_config_field
  set_config_field-IsFit cfg key value fit = elim (Option-cases (key_setting key)) [
    | inl e ↦ rw (e, set_config_field) fit
    | inr (f, e) ↦ rw (e, set_config_field) (assign-IsFit f value cfg fit)
  ]

  pub load_lines-IsFit :
      (ls : List Bytes) (cfg : Config F) → IsFit cfg → IsFit (load_lines fl cfg ls)
  unfolding load_lines
  load_lines-IsFit [] cfg fit = fit
  load_lines-IsFit (l ∷ ls) cfg fit = elim (Option-cases (parse_line l)) [
    | inl e ↦ rw (e, load_lines) (load_lines-IsFit ls cfg fit)
    | inr ((key, value), e) ↦
        rw (e, load_lines)
          (load_lines-IsFit ls (set_config_field fl cfg key value)
            (set_config_field-IsFit cfg key value fit))
  ]

  daemon-IsFit : (cfg : Config F) → IsFit cfg → IsFit (record cfg { daemonize = pos 1 })
  daemon-IsFit cfg fit = ground arith

  -- Where the command line is accepted, its result has the property.
  abbrev pub ParsedFit : Load.Parsed fl → Type 0
  ParsedFit Load.helped = Unit {0}
  ParsedFit Load.failed = Unit {0}
  ParsedFit (Load.parsed cfg) = IsFit cfg

  pub config_parse_cli-IsFit :
      (args : List Bytes) (cfg : Config F) → IsFit cfg → ParsedFit (config_parse_cli fl cfg args)
  unfolding config_parse_cli
  config_parse_cli-IsFit [] cfg fit = fit
  config_parse_cli-IsFit (arg ∷ []) cfg fit = elim (Kind-cases (kind arg)) [
    | inl e ↦ rw (e, config_parse_cli) tt
    | inr (inl e) ↦ rw (e, config_parse_cli) fit
    | inr (inr (inl e)) ↦ rw (e, config_parse_cli) (daemon-IsFit cfg fit)
    | inr (inr (inr (inl e))) ↦ rw (e, config_parse_cli) tt
    | inr (inr (inr (inr (f, e)))) ↦ rw (e, config_parse_cli) tt
  ]
  config_parse_cli-IsFit (arg ∷ val ∷ args) cfg fit = elim (Kind-cases (kind arg)) [
    | inl e ↦ rw (e, config_parse_cli) tt
    | inr (inl e) ↦ rw (e, config_parse_cli) (config_parse_cli-IsFit (val ∷ args) cfg fit)
    | inr (inr (inl e)) ↦
        rw (e, config_parse_cli)
          (config_parse_cli-IsFit (val ∷ args) (record cfg { daemonize = pos 1 })
            (daemon-IsFit cfg fit))
    | inr (inr (inr (inl e))) ↦ rw (e, config_parse_cli) tt
    | inr (inr (inr (inr (f, e)))) ↦
        rw (e, config_parse_cli)
          (config_parse_cli-IsFit args (assign fl f val cfg) (assign-IsFit f val cfg fit))
  ]

  pub find_config-IsFit :
      (args : List Bytes) (cfg : Config F) → IsFit cfg → IsFit (find_config fl cfg args)
  unfolding find_config
  find_config-IsFit [] cfg fit = fit
  find_config-IsFit (arg ∷ []) cfg fit = fit
  find_config-IsFit (arg ∷ val ∷ args) cfg fit =
      let rest = find_config-IsFit (val ∷ args) cfg fit in
      let short = length-snprintf 512 val (omega arith) in ground (arith, rest, short)

  pub defaults-IsFit : IsFit (config_defaults fl)
  unfolding config_defaults
  defaults-IsFit = ground arith
