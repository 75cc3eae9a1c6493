-- ===== src/Config/Tests.antt =====
-- Runs of the configuration's functions, and their theorem at a concrete file and command line.
use professor_ai.Prelude.{ℕ, ◌≡◌, refl, Option, none, some, List, [], ◌∷◌, if◌then◌else◌}
use professor_ai.Prelude.Int.{pos, negsuc}
use professor_ai.Prelude.Bytes.{Bytes, codes, streq}
use professor_ai.Float.Sample.{hundredths}
use professor_ai.Config.{Config}
use professor_ai.Config.Parse.{
  trim, trim_start, trim_end, is_nil, is_space, strtol, long_of, strtol_long, to_int32, digits,
  tokens, split_commas, not_empty, add_ips, add_list, assign, config_defaults,
}
use professor_ai.Config.Settings.{key_setting, option_setting, kind, kind_of}
use professor_ai.Config.Load.{
  lines, put_first, parse_line, split_eq, is_comment, set_config_field, load_lines,
  config_load_file, config_parse_cli, config_validate, has_byte, find_config, load, finish,
  configure,
}
use professor_ai.Config.Fit.{IsFit}
use professor_ai.Config.Bounds.{IsValidated, configure-IsReady}

number_runs :
    (strtol (codes "  42 tokens") ≡ pos 42)
    × (strtol (codes "-7") ≡ negsuc 6)
    × (strtol (codes "4294967297") ≡ pos 1)
unfolding strtol long_of strtol_long to_int32 digits trim_start is_space
number_runs = (refl, refl, refl)

tokens_runs : add_list (codes "10.0.0.1, ,10.0.0.2") [] ≡ codes "10.0.0.1" ∷ codes "10.0.0.2" ∷ []
unfolding add_list add_ips tokens split_commas not_empty trim trim_start trim_end is_nil is_space
tokens_runs = refl

abbrev file : Bytes → Option Bytes
unfolding streq
file path = if streq path (codes "p.ini") then some (codes "max_tokens = 64") else none

abbrev args : List Bytes
args =
    codes "--config"
    ∷ codes "p.ini"
    ∷ codes "--model"
    ∷ codes "m.gguf"
    ∷ codes "--n-ctx"
    ∷ codes "128"
    ∷ []

abbrev expected : Config (Option ℕ)
unfolding config_defaults
expected = record (config_defaults hundredths) {
  config_file = codes "p.ini";
  model_path = codes "m.gguf";
  n_ctx = pos 128;
  max_tokens = pos 64;
}

configure_runs : configure hundredths file args ≡ some expected
unfolding configure load find_config config_defaults config_load_file load_lines lines put_first
    parse_line split_eq is_comment set_config_field key_setting config_parse_cli kind kind_of
    option_setting finish config_validate has_byte assign trim trim_start trim_end is_nil is_space
    strtol long_of strtol_long to_int32 digits streq file expected
configure_runs = refl

configure-IsReady_example : IsFit expected × IsValidated hundredths expected
configure-IsReady_example = configure-IsReady hundredths file args expected configure_runs
