-- ===== src/Recommend.antt =====
-- src/recommend.h and src/recommend.c: what the machine has, read from its files, and the model and the
-- context that are recommended for it.
pub mod Sources
pub mod Detect
pub mod Models
pub mod Picks
pub mod Budget
pub mod Context
pub mod Memory
mod Tests
use professor_ai.Prelude.{ℕ, suc, ◌-◌, ◌/◌, Bool, false, [], if◌then◌else◌, ltb}
use professor_ai.Prelude.Int.{ℤ, pos, negsuc}
use professor_ai.Prelude.Bytes.{Bytes}

-- `hw_info_t`, without two fields that nothing sets.
pub record HwInfo : Type 0 where
  pub cpu_model : Bytes
  pub cpu_cores : ℤ
  pub cpu_threads : ℕ
  pub gpu_name : Bytes
  pub gpu_arch : Bytes
  pub ram_total_bytes : ℤ
  pub ram_available_bytes : ℤ
  pub vram_bytes : ℤ
  pub gtt_bytes : ℤ
  pub has_npu : Bool
  pub npu_name : Bytes
  pub is_uma : Bool
  pub effective_gpu_mem : ℤ
  pub mem_bandwidth_gbps : ℕ

-- `memset(hw, 0, sizeof(*hw))`
unfoldable pub no_info : HwInfo
no_info = record {
  cpu_model = [];
  cpu_cores = pos 0;
  cpu_threads = 0;
  gpu_name = [];
  gpu_arch = [];
  ram_total_bytes = pos 0;
  ram_available_bytes = pos 0;
  vram_bytes = pos 0;
  gtt_bytes = pos 0;
  has_npu = false;
  npu_name = [];
  is_uma = false;
  effective_gpu_mem = pos 0;
  mem_bandwidth_gbps = 0;
}

abbrev pub gb : ℕ
gb = 1073741824

-- `v / d` in C, which truncates towards zero.
unfoldable pub quot : ℤ → ℕ → ℤ
quot (pos n) d = pos (n / d)
quot (negsuc n) d = if ltb (suc n) d then pos 0 else negsuc (suc n / d - 1)
