-- ===== src/Recommend/Tests.antt =====
-- Recommendations and detection on concrete machines.
use professor_ai.Prelude.Text.{chop}
use professor_ai.Prelude.{◌+◌, ◌*◌, ◌≤◌, ◌≡◌, refl, false, none, some, [], ◌∷◌, if◌then◌else◌}
use professor_ai.Prelude.Int.{pos}
use professor_ai.Prelude.Bytes.{codes, streq, has_prefix}
use professor_ai.Recommend.{gb, no_info}
use professor_ai.Config.Parse.{
  is_nil, strtol, strtol_long, long_of, trim_start, is_space, to_int32, digits,
}
use professor_ai.Config.Load.{lines, put_first, has_byte}
use professor_ai.Recommend.Sources.{
  Machine, read_sysfs_int64, read_sysfs_str, read_proc_field, first_line, field_of, skip_sep,
}
use professor_ai.Recommend.Detect.{
  hw_detect, detect_cpu, detect_gpu, detect_npu, name_gpu, infer_arch, estimate_bandwidth,
  find_gpu_drm_card, amd_card, set_memory, read_card, first_of, strstr, count_processors,
}
use professor_ai.Recommend.Memory.{IsConsistent, hw_detect-IsConsistent}
use professor_ai.Recommend.Models.{
  throughput, estimate_tps, about, below, ModelEntry, entry, hermes_models, within, larger_models,
  smallest,
}
use professor_ai.Recommend.Picks.{suits, pick_loop, or_smallest, top_pick, recommended_ctx}
use professor_ai.Recommend.Context.{recommendation_fits}

abbrev f16 : ModelEntry
f16 =
    entry (codes "Hermes-3-Llama-3.1-8B") (codes "F16") 160 131072 65536 (codes "Full precision 8B")

top_pick-24 : (top_pick (pos 24)).size ≡ 160
unfolding top_pick pick_loop or_smallest suits within hermes_models larger_models smallest
top_pick-24 = refl

recommendation_fits_example :
    (top_pick (pos 24)).size * gb
      + (top_pick (pos 24)).kv_bytes_per_tok * recommended_ctx (pos 24) (top_pick (pos 24)) * 10
    ≤ 24 * 10 * gb
unfolding hermes_models larger_models suits within
recommendation_fits_example = recommendation_fits (pos 24) 3 f16 refl refl

-- An APU: 512 MB of its own, and 96 GB shared.
abbrev apu : Machine
apu = record {
  file = λ path.
      if streq path (codes "/sys/class/drm/card1/device/vendor")
      then some (codes "0x1002\n")
      else if streq path (codes "/sys/class/drm/card1/device/mem_info_vram_total")
      then some (codes "536870912\n")
      else if streq path (codes "/sys/class/drm/card1/device/mem_info_gtt_total")
      then some (codes "103079215104\n")
      else if streq path (codes "/proc/cpuinfo")
      then some (codes "processor\t: 0\nmodel name\t: AMD RYZEN AI MAX+ 395\ncpu cores\t: 16\n")
      else none;
  entries = λ path.
      if streq path (codes "/sys/class/drm")
      then some (codes "card1-DP-1" ∷ codes "card1" ∷ [])
      else none;
  has_node = λ path. false;
}

hw_detect-IsConsistent_example : IsConsistent (hw_detect apu)
hw_detect-IsConsistent_example = hw_detect-IsConsistent apu

hw_detect-apu :
    ((hw_detect apu).effective_gpu_mem ≡ pos 103079215104)
    × ((hw_detect apu).mem_bandwidth_gbps ≡ 192)
    × ((hw_detect apu).cpu_cores ≡ pos 16)
unfolding hw_detect detect_cpu detect_gpu detect_npu name_gpu infer_arch estimate_bandwidth no_info
    find_gpu_drm_card amd_card set_memory read_card first_of strstr count_processors
    read_sysfs_int64 read_sysfs_str read_proc_field first_line field_of chop skip_sep lines
    put_first has_byte is_nil strtol strtol_long long_of trim_start is_space to_int32 digits
    has_prefix streq
hw_detect-apu = (refl, refl, refl)

-- 192 GB/s and a model of 16 GB: 192 * 0.8 / 16 tokens a second, and 30 % of it where the model is too big.
throughput-24 : throughput (pos 24) 192 f16 ≡ about (15360, 1600)
unfolding throughput within estimate_tps
throughput-24 = refl

throughput-12 : throughput (pos 12) 192 f16 ≡ below (46080, 16000)
unfolding throughput within estimate_tps
throughput-12 = refl
