-- ===== src/Config/Load.antt =====
-- src/config.c: `set_config_field`, `config_load_file`, `config_parse_cli` and `config_validate`; and
-- the part of src/main.c that calls them.
use professor_ai.Prelude.{
  ℕ, ◌+◌, Bool, true, false, not, ◌||◌, ◌&&◌, Option, none, some, List, [], ◌∷◌, if◌then◌else◌,
  ◌==◌,
}
use professor_ai.Prelude.Int.{pos, ltb_ℤ}
use professor_ai.Prelude.Bytes.{Bytes, codes, streq, snprintf_s}
use professor_ai.Float.{Floats}
use professor_ai.Config.{Config, path_max}
use professor_ai.Config.Parse.{trim, is_nil, assign, config_defaults}
use professor_ai.Config.Settings.{key_setting, kind, help, skip, daemon, unknown, takes}

-- The calls of `fgets(line, size + 1, fp)` over the file's bytes, `n` of them already in the line: the
-- lines, each up to a newline or to `size` bytes. A file has no NUL bytes.
unfoldable pub put_first : ℕ → List Bytes → List Bytes
put_first c [] = (c ∷ []) ∷ []
put_first c (l ∷ ls) = (c ∷ l) ∷ ls

unfoldable pub lines : ℕ → ℕ → Bytes → List Bytes
unfolding put_first
lines size n [] = []
lines size n (c ∷ s) =
    let ends = c == 10 || n + 1 == size in
    let rest = lines size (if ends then 0 else n + 1) s in
    if ends then (c ∷ []) ∷ rest else put_first c rest

-- `strchr(s, c) != NULL`
unfoldable pub has_byte : ℕ → Bytes → Bool
has_byte c [] = false
has_byte c (d ∷ s) = c == d || has_byte c s

-- The split on the first '='.
unfoldable pub split_eq : Bytes → Option (Bytes × Bytes)
split_eq [] = none
split_eq (c ∷ s) =
    let rest = split_eq s in
    if c == 61
    then some ([], s)
    else elim rest [ none ↦ none | some (key, value) ↦ some (c ∷ key, value) ]

unfoldable pub is_comment : Bytes → Bool
is_comment [] = true
is_comment (c ∷ s) = c == 35 || c == 59

-- One line: `none` where the loop goes on without a key.
unfoldable pub parse_line : Bytes → Option (Bytes × Bytes)
unfolding split_eq is_comment
parse_line line =
    let p = trim line in
    if is_comment p
    then none
    else elim (split_eq p) [ none ↦ none | some (key, value) ↦ some (trim key, trim value) ]

module _ (fl : Floats) where
  open fl use {F}

  -- `set_config_field`
  unfoldable pub set_config_field : Config F → Bytes → Bytes → Config F
  set_config_field cfg key value = elim (key_setting key) [
    | none ↦ cfg
    | some f ↦ assign fl f value cfg
  ]

  unfoldable pub load_lines : Config F → List Bytes → Config F
  load_lines cfg [] = cfg
  load_lines cfg (l ∷ ls) = elim (parse_line l) [
    | none ↦ load_lines cfg ls
    | some (key, value) ↦ load_lines (set_config_field cfg key value) ls
  ]

  -- `config_load_file`: the file's bytes, `none` where it cannot be opened.
  unfoldable pub config_load_file : Config F → Option Bytes → Option (Config F)
  config_load_file cfg none = none
  config_load_file cfg (some text) = some (load_lines cfg (lines 1023 0 text))

  -- `config_parse_cli` on the arguments after the program's name. It prints the help and exits, fails,
  -- or returns 0 with the configuration.
  pub data Parsed : Type 0 where
    helped failed : Parsed
    parsed : Config F → Parsed

  unfoldable pub config_parse_cli : Config F → List Bytes → Parsed
  config_parse_cli cfg [] = parsed cfg
  config_parse_cli cfg (arg ∷ []) = elim (kind arg) [
    | help ↦ helped
    | skip ↦ parsed cfg
    | daemon ↦ parsed (record cfg { daemonize = pos 1 })
    | unknown ↦ failed
    | takes f ↦ failed
  ]
  config_parse_cli cfg (arg ∷ val ∷ args) = elim (kind arg) [
    | help ↦ helped
    | skip ↦ config_parse_cli cfg (val ∷ args)
    | daemon ↦ config_parse_cli (record cfg { daemonize = pos 1 }) (val ∷ args)
    | unknown ↦ failed
    | takes f ↦ config_parse_cli (assign fl f val cfg) args
  ]

  -- `config_validate` returns 0.
  unfoldable pub config_validate : Config F → Bool
  config_validate cfg =
      not (is_nil cfg.model_path)
      && ltb_ℤ (pos 0) cfg.n_ctx
      && ltb_ℤ (pos 0) cfg.max_tokens
      && not (ltb_ℤ cfg.n_ctx cfg.max_tokens)
      && has_byte 58 cfg.listen_addr
      && ltb_ℤ (pos 0) cfg.max_inference_seconds

  -- Step 3 of `main`: the first "--config" with a value.
  unfoldable pub find_config : Config F → List Bytes → Config F
  find_config cfg [] = cfg
  find_config cfg (arg ∷ []) = cfg
  find_config cfg (arg ∷ val ∷ args) =
      let rest = find_config cfg (val ∷ args) in
      if streq arg (codes "--config")
      then record cfg { config_file = snprintf_s path_max val }
      else rest

  -- Step 3b of `main`; `file` is what the file system has under a path.
  unfoldable pub load : (Bytes → Option Bytes) → Config F → Option (Config F)
  load file cfg =
      if is_nil cfg.config_file then some cfg else config_load_file cfg (file cfg.config_file)

  -- Steps 4 and 5 of `main`, after the command line.
  unfoldable pub finish : Parsed → Option (Config F)
  finish helped = none
  finish failed = none
  finish (parsed cfg) = if config_validate cfg then some cfg else none

  -- Steps 1 and 3 to 5 of `main`. `none`: no daemon is started.
  unfoldable pub configure : (Bytes → Option Bytes) → List Bytes → Option (Config F)
  configure file args = elim (load file (find_config (config_defaults fl) args)) [
    | none ↦ none
    | some cfg ↦ finish (config_parse_cli cfg args)
  ]
