-- ===== src/Config/OrderTests.antt =====
-- Two lines of a file in either order, and an option over a line.
use professor_ai.Prelude.{◌≡◌, refl, some, [], ◌∷◌}
use professor_ai.Prelude.Bytes.{Bytes, codes, streq}
use professor_ai.Float.Sample.{hundredths}
use professor_ai.Config.Parse.{
  n_ctx, model_alias, trim, trim_start, trim_end, is_space, config_defaults,
}
use professor_ai.Config.Settings.{key_setting, option_setting, kind, takes}
use professor_ai.Config.Load.{parse_line, split_eq, is_comment, load_lines, config_parse_cli}
use professor_ai.Config.Order.{
  setting_of, keyed, Reordered, exchange, load_lines-Reordered, config_parse_cli_overrides,
}

abbrev ctx_line : Bytes
ctx_line = codes "n_ctx = 2048\n"

abbrev alias_line : Bytes
alias_line = codes "model_alias=farnsworth\n"

ctx_line-sets : setting_of ctx_line ≡ some (n_ctx, codes "2048")
unfolding keyed parse_line key_setting split_eq is_comment trim trim_start trim_end is_space streq
ctx_line-sets = refl

alias_line-sets : setting_of alias_line ≡ some (model_alias, codes "farnsworth")
unfolding keyed parse_line key_setting split_eq is_comment trim trim_start trim_end is_space streq
alias_line-sets = refl

exchanged : Reordered (ctx_line ∷ alias_line ∷ []) (alias_line ∷ ctx_line ∷ [])
exchanged = exchange ctx_line alias_line [] (rw (ctx_line-sets, alias_line-sets) λ e. cc)

load_lines-Reordered_example :
    load_lines hundredths (config_defaults hundredths) (ctx_line ∷ alias_line ∷ [])
    ≡ load_lines hundredths (config_defaults hundredths) (alias_line ∷ ctx_line ∷ [])
load_lines-Reordered_example =
    load_lines-Reordered hundredths (config_defaults hundredths) exchanged

ctx_option : kind (codes "--n-ctx") ≡ takes n_ctx
unfolding kind option_setting streq
ctx_option = refl

config_parse_cli_overrides_example :
    config_parse_cli hundredths
      (load_lines hundredths (config_defaults hundredths) (alias_line ∷ ctx_line ∷ []))
      (codes "--n-ctx" ∷ codes "512" ∷ [])
    ≡ config_parse_cli hundredths
        (load_lines hundredths (config_defaults hundredths) (alias_line ∷ []))
        (codes "--n-ctx" ∷ codes "512" ∷ [])
config_parse_cli_overrides_example =
    config_parse_cli_overrides hundredths (alias_line ∷ []) [] ctx_line n_ctx (codes "2048")
      (codes "--n-ctx") (codes "512") [] (config_defaults hundredths) ctx_line-sets ctx_option
      λ e. cc
