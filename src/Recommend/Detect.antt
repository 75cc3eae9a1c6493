-- ===== src/Recommend/Detect.antt =====
-- The detection of src/recommend.c: the GPU, the CPU, the NPU, and `hw_detect`.
use professor_ai.Prelude.Text.{chop}
use professor_ai.Prelude.{
  ℕ, suc, ◌*◌, ◌/◌, Bool, true, false, not, ◌&&◌, ◌||◌, Option, none, some, List, [], ◌∷◌, ◌++◌,
  if◌then◌else◌, ◌==◌, ltb, drop,
}
use professor_ai.Prelude.Int.{ℤ, pos, ltb_ℤ}
use professor_ai.Prelude.Bytes.{Bytes, codes, streq, has_prefix, snprintf_s}
use professor_ai.Config.Parse.{is_nil, strtol}
use professor_ai.Config.Load.{lines, has_byte}
use professor_ai.Recommend.{HwInfo, no_info, gb, quot}
use professor_ai.Recommend.Sources.{
  Machine, read_sysfs_int64, read_sysfs_str, read_proc_field, read_proc_meminfo_kb,
}

-- The entries of a directory until one answers.
unfoldable pub first_of : (Bytes → Option Bytes) → List Bytes → Option Bytes
first_of f [] = none
first_of f (e ∷ es) =
    let rest = first_of f es in elim (f e) [ none ↦ rest | some found ↦ some found ]

-- `strstr(s, needle) != NULL`
unfoldable pub strstr : Bytes → Bytes → Bool
strstr [] needle = is_nil needle
strstr (c ∷ s) needle = let rest = strstr s needle in has_prefix needle (c ∷ s) || rest

unfoldable pub count_processors : List Bytes → ℕ
count_processors [] = 0
count_processors (l ∷ ls) =
    let rest = count_processors ls in if has_prefix (codes "processor") l then suc rest else rest

-- The last line "DRIVER=..." names the NPU.
unfoldable pub driver_of : Bytes → List Bytes → Bytes
unfolding chop
driver_of name [] = name
driver_of name (l ∷ ls) =
    driver_of (if has_prefix (codes "DRIVER=") l then snprintf_s 128 (drop 7 (chop l)) else name) ls

-- The test for unified memory: less than 4 GB of the card's own, and more than 4 GB shared.
unfoldable pub set_memory : ℤ → ℤ → HwInfo → HwInfo
set_memory vram gtt hw =
    let four = pos (4 * gb) in
    let read = record hw { vram_bytes = vram; gtt_bytes = gtt } in
    if ltb_ℤ (pos 0) vram && ltb_ℤ vram four && ltb_ℤ four gtt
    then record read { is_uma = true; effective_gpu_mem = gtt }
    else if ltb_ℤ (pos 0) vram
    then record read { is_uma = false; effective_gpu_mem = vram }
    else read

module _ (m : Machine) where
  open m use {file, entries, has_node}

  -- The body of the loop over the entries of /sys/class/drm.
  unfoldable pub amd_card : Bytes → Option Bytes
  unfolding read_sysfs_str
  amd_card name =
      let dir = codes "/sys/class/drm/" ++ name ++ codes "/device" in
      let vendor = read_sysfs_str m (snprintf_s 512 (dir ++ codes "/vendor")) 16 in
      let found : Option Bytes = elim vendor [
        | none ↦ none
        | some v ↦ if streq v (codes "0x1002") then some (snprintf_s 512 dir) else none
      ] in
      if has_prefix (codes "card") name && not (has_byte 45 (drop 4 name)) then found else none

  unfoldable pub find_gpu_drm_card : Option Bytes
  unfolding first_of amd_card
  find_gpu_drm_card = elim (entries (codes "/sys/class/drm")) [
    | none ↦ none
    | some es ↦ first_of amd_card es
  ]

  unfoldable pub read_card : Option Bytes → HwInfo → HwInfo
  unfolding set_memory
  read_card none hw = record hw { gpu_name = codes "Not detected" }
  read_card (some card) hw =
      set_memory (read_sysfs_int64 m (card ++ codes "/mem_info_vram_total"))
        (read_sysfs_int64 m (card ++ codes "/mem_info_gtt_total")) hw

  unfoldable pub detect_gpu : HwInfo → HwInfo
  unfolding find_gpu_drm_card read_card
  detect_gpu hw = read_card find_gpu_drm_card hw

  unfoldable pub detect_cpu : HwInfo → HwInfo
  unfolding read_proc_field count_processors
  detect_cpu hw =
      let cpuinfo = codes "/proc/cpuinfo" in
      let model : Bytes = elim (read_proc_field m cpuinfo (codes "model name") 256) [
        | none ↦ hw.cpu_model
        | some v ↦ v
      ] in
      let threads : ℕ = elim (file cpuinfo) [
        | none ↦ hw.cpu_threads
        | some t ↦ count_processors (lines 255 0 t)
      ] in
      let half = if ltb (threads / 2) 1 then 1 else threads / 2 in
      let cores : ℤ = elim (read_proc_field m cpuinfo (codes "cpu cores") 32) [
        | none ↦ pos half
        | some v ↦ strtol v
      ] in
      record hw { cpu_model = model; cpu_threads = threads; cpu_cores = cores }

  -- The first entry "accel..." of the directory; its other entries are skipped.
  unfoldable pub npu_driver : Bytes → Option Bytes
  unfolding driver_of
  npu_driver name =
      let path = snprintf_s 512 (codes "/sys/class/accel/" ++ name ++ codes "/device/uevent") in
      let driver : Bytes = elim (file path) [ none ↦ [] | some t ↦ driver_of [] (lines 127 0 t) ] in
      if has_prefix (codes "accel") name then some driver else none

  unfoldable pub detect_npu : HwInfo → HwInfo
  unfolding npu_driver first_of
  detect_npu hw =
      let found : Option Bytes = elim (entries (codes "/sys/class/accel")) [
        | none ↦ none
        | some es ↦ first_of npu_driver es
      ] in
      let name : Bytes = elim found [ none ↦ hw.npu_name | some driver ↦ driver ] in
      if has_node (codes "/dev/accel0")
      then record hw { has_npu = true; npu_name = if is_nil name then codes "detected" else name }
      else hw

  -- The product name, where there is no name yet.
  unfoldable pub name_gpu : HwInfo → HwInfo
  unfolding find_gpu_drm_card read_sysfs_str
  name_gpu hw =
      let product : Option Bytes = elim find_gpu_drm_card [
        | none ↦ none
        | some card ↦ read_sysfs_str m (snprintf_s 576 (card ++ codes "/product_name")) 256
      ] in
      if is_nil hw.gpu_name || streq hw.gpu_name (codes "Not detected")
      then elim product [ none ↦ hw | some name ↦ record hw { gpu_name = name } ]
      else hw

-- The known processors.
unfoldable pub infer_arch : HwInfo → HwInfo
unfolding strstr
infer_arch hw =
    let apu = if is_nil hw.gpu_name then codes "Integrated RDNA 3.5 APU" else hw.gpu_name in
    if not (is_nil hw.gpu_arch)
    then hw
    else if strstr hw.cpu_model (codes "Ryzen AI MAX") || strstr hw.cpu_model (codes "RYZEN AI MAX")
    then record hw { gpu_name = apu; gpu_arch = codes "gfx1151"; mem_bandwidth_gbps = 192 }
    else if strstr hw.cpu_model (codes "Ryzen AI") || strstr hw.cpu_model (codes "RYZEN AI")
    then record hw { gpu_name = apu; gpu_arch = codes "gfx1150"; mem_bandwidth_gbps = 96 }
    else if ltb_ℤ (pos 0) hw.vram_bytes && is_nil hw.gpu_name
    then record hw { gpu_name = codes "AMD GPU" }
    else hw

-- The bandwidth of discrete cards, by their memory; 0 below 8 GB.
unfoldable pub class_bandwidth : ℤ → ℕ
class_bandwidth vram_gb =
    if ltb_ℤ (pos 79) vram_gb
    then 2000
    else if ltb_ℤ (pos 47) vram_gb
    then 800
    else if ltb_ℤ (pos 23) vram_gb
    then 600
    else if ltb_ℤ (pos 15) vram_gb
    then 400
    else if ltb_ℤ (pos 7) vram_gb
    then 250
    else 0

unfoldable pub estimate_bandwidth : HwInfo → HwInfo
unfolding class_bandwidth quot
estimate_bandwidth hw =
    if hw.mem_bandwidth_gbps == 0 && not hw.is_uma && ltb_ℤ (pos 0) hw.vram_bytes
    then record hw { mem_bandwidth_gbps = class_bandwidth (quot hw.vram_bytes gb) }
    else hw

unfoldable pub hw_detect : Machine → HwInfo
unfolding detect_cpu detect_gpu detect_npu name_gpu infer_arch estimate_bandwidth
    read_proc_meminfo_kb no_info
hw_detect m =
    let cpu = detect_cpu m no_info in
    let ram = record cpu {
      ram_total_bytes = read_proc_meminfo_kb m (codes "MemTotal");
      ram_available_bytes = read_proc_meminfo_kb m (codes "MemAvailable");
    } in
    estimate_bandwidth (infer_arch (name_gpu m (detect_npu m (detect_gpu m ram))))
