-- ===== src/Config.antt =====
-- src/config.h: `config_t`, over the type of floats.
pub mod Parse
pub mod Settings
pub mod Load
pub mod Fit
pub mod Order
pub mod Bounds
mod Tests
mod OrderTests
use professor_ai.Prelude.{ℕ, List}
use professor_ai.Prelude.Int.{ℤ, pos, ◌≤ℤ◌}
use professor_ai.Prelude.Bytes.{Bytes}

-- PROF_PATH_MAX, PROF_ADDR_MAX, PROF_NAME_MAX, PROF_KEY_MAX, PROF_ACL_MAX
abbrev pub path_max : ℕ
path_max = 512

abbrev pub addr_max : ℕ
addr_max = 64

abbrev pub name_max : ℕ
name_max = 128

abbrev pub key_max : ℕ
key_max = 128

abbrev pub acl_max : ℕ
acl_max = 16

-- `config_t`. `acl` lists the entries that are in use, so `acl_count` is its length.
pub record Config (F : Type 0) : Type 0 where
  pub model_path : Bytes
  pub model_alias : Bytes
  pub n_ctx : ℤ
  pub n_gpu_layers : ℤ
  pub n_batch : ℤ
  pub n_threads : ℤ
  pub temperature : F
  pub top_p : F
  pub top_k : ℤ
  pub repeat_penalty : F
  pub max_tokens : ℤ
  pub listen_addr : Bytes
  pub api_key : Bytes
  pub acl : List Bytes
  pub max_inference_seconds : ℤ
  pub stats_interval : ℤ
  pub daemonize : ℤ
  pub pid_file : Bytes
  pub log_level : ℤ
  pub log_file : Bytes
  pub config_file : Bytes

-- What `config_validate` asks of the two limits.
pub record LimitsOk {F : Type 0} (cfg : Config F) : Type 0 where
  pub tokens_pos : pos 1 ≤ℤ cfg.max_tokens
  pub tokens_le : cfg.max_tokens ≤ℤ cfg.n_ctx
