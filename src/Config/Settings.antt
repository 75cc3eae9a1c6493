-- ===== src/Config/Settings.antt =====
-- src/config.c: which key of the file and which option of the command line sets which field.
use professor_ai.Prelude.{◌||◌, Option, none, some, if◌then◌else◌}
use professor_ai.Prelude.Bytes.{Bytes, codes, streq}
use professor_ai.Config.Parse.{
  Setting, model_path, model_alias, n_ctx, n_gpu_layers, n_batch, n_threads, temperature, top_p,
  top_k, repeat_penalty, max_tokens, listen_addr, api_key, max_inference_seconds, stats_interval,
  daemonize, pid_file, log_level, log_file, allow_ip, config_file,
}

-- The chain of comparisons of `set_config_field`; `none` is an unknown key.
unfoldable pub key_setting : Bytes → Option Setting
key_setting key =
    if streq key (codes "model_path")
    then some model_path
    else if streq key (codes "model_alias")
    then some model_alias
    else if streq key (codes "n_ctx")
    then some n_ctx
    else if streq key (codes "n_gpu_layers")
    then some n_gpu_layers
    else if streq key (codes "n_batch")
    then some n_batch
    else if streq key (codes "n_threads")
    then some n_threads
    else if streq key (codes "temperature")
    then some temperature
    else if streq key (codes "top_p")
    then some top_p
    else if streq key (codes "top_k")
    then some top_k
    else if streq key (codes "repeat_penalty")
    then some repeat_penalty
    else if streq key (codes "max_tokens")
    then some max_tokens
    else if streq key (codes "listen_addr")
    then some listen_addr
    else if streq key (codes "api_key")
    then some api_key
    else if streq key (codes "max_inference_seconds")
    then some max_inference_seconds
    else if streq key (codes "stats_interval")
    then some stats_interval
    else if streq key (codes "daemonize")
    then some daemonize
    else if streq key (codes "pid_file")
    then some pid_file
    else if streq key (codes "log_level")
    then some log_level
    else if streq key (codes "log_file")
    then some log_file
    else if streq key (codes "allow_ip")
    then some allow_ip
    else none

-- The chain of `config_parse_cli` for the options with a value.
unfoldable pub option_setting : Bytes → Option Setting
option_setting arg =
    if streq arg (codes "--config")
    then some config_file
    else if streq arg (codes "--model")
    then some model_path
    else if streq arg (codes "--model-alias")
    then some model_alias
    else if streq arg (codes "--n-ctx") || streq arg (codes "--fing-longer")
    then some n_ctx
    else if streq arg (codes "--n-gpu-layers")
    then some n_gpu_layers
    else if streq arg (codes "--n-batch")
    then some n_batch
    else if streq arg (codes "--n-threads")
    then some n_threads
    else if streq arg (codes "--temperature")
    then some temperature
    else if streq arg (codes "--top-p")
    then some top_p
    else if streq arg (codes "--top-k")
    then some top_k
    else if streq arg (codes "--repeat-penalty")
    then some repeat_penalty
    else if streq arg (codes "--max-tokens")
    then some max_tokens
    else if streq arg (codes "--listen-addr")
    then some listen_addr
    else if streq arg (codes "--api-key")
    then some api_key
    else if streq arg (codes "--max-inference-seconds")
    then some max_inference_seconds
    else if streq arg (codes "--stats-interval")
    then some stats_interval
    else if streq arg (codes "--pid-file")
    then some pid_file
    else if streq arg (codes "--log-level")
    then some log_level
    else if streq arg (codes "--log-file")
    then some log_file
    else if streq arg (codes "--allow-ip")
    then some allow_ip
    else none

-- What `config_parse_cli` makes of one argument.
pub data Kind : Type 0 where
  help skip daemon unknown : Kind
  takes : Setting → Kind

unfoldable pub kind_of : Option Setting → Kind
kind_of none = unknown
kind_of (some f) = takes f

unfoldable pub kind : Bytes → Kind
unfolding kind_of
kind arg =
    if streq arg (codes "--help") || streq arg (codes "-h")
    then help
    else if streq arg (codes "--recommend") || streq arg (codes "--gen-api-key")
    then skip
    else if streq arg (codes "--daemonize")
    then daemon
    else kind_of (option_setting arg)
