-- ===== src/Recommend/Memory.antt =====
-- The memory that `hw_detect` of src/recommend.c finds.
use professor_ai.Prelude.{
  ◌*◌, ◌≡◌, refl, inl, inr, Bool, false, ◌&&◌, ◌++◌, Option, none, some, if◌then◌else◌, arith,
  Bool-cases,
}
use professor_ai.Prelude.Int.{ℤ, pos, ltb_ℤ}
use professor_ai.Prelude.Bytes.{Bytes, codes}
use professor_ai.Recommend.{HwInfo, no_info, gb}
use professor_ai.Recommend.Sources.{Machine, read_sysfs_int64}
use professor_ai.Recommend.Detect.{
  set_memory, read_card, detect_gpu, detect_cpu, detect_npu, name_gpu, infer_arch,
  estimate_bandwidth, hw_detect,
}

-- GPU and CPU share their memory: the card has 1 byte to 4 GB of its own, and may use more than 4 GB.
abbrev pub shares : ℤ → ℤ → Bool
shares vram gtt = ltb_ℤ (pos 0) vram && ltb_ℤ vram (pos (4 * gb)) && ltb_ℤ (pos (4 * gb)) gtt

abbrev pub IsConsistent : HwInfo → Type 0
IsConsistent hw =
    (hw.is_uma ≡ shares hw.vram_bytes hw.gtt_bytes)
    × (hw.effective_gpu_mem ≡ (
        if hw.is_uma
        then hw.gtt_bytes
        else if ltb_ℤ (pos 0) hw.vram_bytes
        then hw.vram_bytes
        else pos 0))

set_memory-IsConsistent :
    (vram gtt : ℤ) (hw : HwInfo)
    → hw.is_uma ≡ false
    → hw.effective_gpu_mem ≡ pos 0
    → IsConsistent (set_memory vram gtt hw)
unfolding set_memory
set_memory-IsConsistent vram gtt hw u e = elim (Bool-cases (shares vram gtt)) [
  | inl both ↦ simp both (refl, refl)
  | inr not_so ↦ simp not_so (ground (arith, u, e))
]

name_gpu-IsConsistent : (m : Machine) (hw : HwInfo) → IsConsistent hw → IsConsistent (name_gpu m hw)
unfolding name_gpu
name_gpu-IsConsistent m hw c = ground arith

infer_arch-IsConsistent : (hw : HwInfo) → IsConsistent hw → IsConsistent (infer_arch hw)
unfolding infer_arch
infer_arch-IsConsistent hw c = ground arith

estimate_bandwidth-IsConsistent :
    (hw : HwInfo) → IsConsistent hw → IsConsistent (estimate_bandwidth hw)
unfolding estimate_bandwidth
estimate_bandwidth-IsConsistent hw c = ground arith

detect_npu-IsConsistent :
    (m : Machine) (hw : HwInfo) → IsConsistent hw → IsConsistent (detect_npu m hw)
unfolding detect_npu
detect_npu-IsConsistent m hw c = ground arith

read_card-IsConsistent :
    (m : Machine) (card : Option Bytes) (hw : HwInfo)
    → hw.is_uma ≡ false
    → hw.effective_gpu_mem ≡ pos 0
    → hw.vram_bytes ≡ pos 0
    → IsConsistent (read_card m card hw)
unfolding read_card
read_card-IsConsistent m none hw u e v = simp (u, e, v) (refl, refl)
read_card-IsConsistent m (some card) hw u e v =
    set_memory-IsConsistent (read_sysfs_int64 m (card ++ codes "/mem_info_vram_total"))
      (read_sysfs_int64 m (card ++ codes "/mem_info_gtt_total")) hw u e

-- Whatever the machine has, the detection ends with the GPU's memory in one of three forms: shared, of
-- which the GPU may use what is shared; its own; or none.
pub hw_detect-IsConsistent : (m : Machine) → IsConsistent (hw_detect m)
unfolding hw_detect detect_cpu detect_gpu no_info
hw_detect-IsConsistent m = estimate_bandwidth-IsConsistent _ (
    infer_arch-IsConsistent _ (
      name_gpu-IsConsistent m _
        (detect_npu-IsConsistent m _ (read_card-IsConsistent m _ _ refl refl refl))))
