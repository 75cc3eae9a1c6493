-- ===== src/Recommend/Models.antt =====
-- The model tables of src/recommend.c, and how well a model fits. Sizes are in tenths of a gigabyte, and
-- the comparisons are exact: for these sizes, those on `double` give the same.
use professor_ai.Prelude.{
  ℕ, ◌+◌, ◌*◌, Bool, true, false, List, [], ◌∷◌, if◌then◌else◌, ◌==◌, ◌||◌, leb, map,
}
use professor_ai.Prelude.Int.{ℤ, pos, pos_part, neg_part, ◌*ℤ◌, ltb_ℤ}
use professor_ai.Prelude.Bytes.{Bytes, codes}
use professor_ai.Recommend.{HwInfo, gb, quot}

-- `model_entry_t`
pub record ModelEntry : Type 0 where
  pub name : Bytes
  pub quant : Bytes
  pub size : ℕ
  pub max_ctx : ℕ
  pub kv_bytes_per_tok : ℕ
  pub notes : Bytes

abbrev pub entry : Bytes → Bytes → ℕ → ℕ → ℕ → Bytes → ModelEntry
entry name quant size max_ctx kv notes = record {
  name = name;
  quant = quant;
  size = size;
  max_ctx = max_ctx;
  kv_bytes_per_tok = kv;
  notes = notes;
}

unfoldable pub smallest : ModelEntry
smallest =
    entry (codes "Hermes-3-Llama-3.1-8B") (codes "Q4_K_M") 49 131072 65536
      (codes "Fast, good quality")

-- The entries of `hermes_models` after the first, and of `other_models`.
unfoldable pub larger_models : List ModelEntry
larger_models =
    entry (codes "Hermes-3-Llama-3.1-8B") (codes "Q6_K") 66 131072 65536 (codes "Higher quality")
    ∷ entry (codes "Hermes-3-Llama-3.1-8B") (codes "Q8_0") 85 131072 65536
        (codes "Near-lossless 8B")
    ∷ entry (codes "Hermes-3-Llama-3.1-8B") (codes "F16") 160 131072 65536
        (codes "Full precision 8B")
    ∷ entry (codes "Hermes-3-Llama-3.1-70B") (codes "Q3_K_M") 330 131072 163840
        (codes "Aggressive quant, usable")
    ∷ entry (codes "Hermes-3-Llama-3.1-70B") (codes "Q4_K_M") 400 131072 163840
        (codes "Best balance for 70B")
    ∷ entry (codes "Hermes-3-Llama-3.1-70B") (codes "Q5_K_M") 500 131072 163840
        (codes "High quality 70B")
    ∷ entry (codes "Hermes-3-Llama-3.1-70B") (codes "Q6_K") 580 131072 163840
        (codes "Very high quality 70B")
    ∷ entry (codes "Hermes-3-Llama-3.1-70B") (codes "Q8_0") 740 131072 163840
        (codes "Near-lossless 70B")
    ∷ []

unfoldable pub hermes_models : List ModelEntry
unfolding smallest larger_models
hermes_models = smallest ∷ larger_models

unfoldable pub other_models : List ModelEntry
other_models =
    entry (codes "Qwen2.5-72B-Instruct") (codes "Q4_K_M") 420 131072 163840
      (codes "Strong multilingual")
    ∷ entry (codes "Qwen2.5-32B-Instruct") (codes "Q6_K") 250 131072 131072
        (codes "Good mid-size option")
    ∷ entry (codes "Qwen2.5-14B-Instruct") (codes "Q8_0") 150 131072 98304
        (codes "Fast and capable")
    ∷ entry (codes "Llama-3.3-70B-Instruct") (codes "Q4_K_M") 400 131072 163840
        (codes "Meta's latest 70B")
    ∷ entry (codes "Mistral-Large-2411") (codes "Q4_K_M") 380 32768 180224
        (codes "Strong reasoning")
    ∷ entry (codes "DeepSeek-R1-Distill-70B") (codes "Q4_K_M") 400 131072 163840
        (codes "Reasoning focused")
    ∷ entry (codes "Phi-4-14B") (codes "Q8_0") 150 16384 76800 (codes "Microsoft, fast")
    ∷ []

-- `size_gb <= (double)budget_gb * percent / 100`
unfoldable pub within : ℕ → ℕ → ℤ → Bool
within percent size budget = leb (size * 10 + neg_part budget * percent) (pos_part budget * percent)

pub data Fit : Type 0 where
  easy good tight spill too_big : Fit

unfoldable pub fit_of : ℕ → ℤ → Fit
unfolding within
fit_of size budget =
    if within 65 size budget
    then easy
    else if within 85 size budget
    then good
    else if within 95 size budget
    then tight
    else if within 130 size budget
    then spill
    else too_big

-- The marker '*'.
unfoldable pub recommended : Fit → Bool
recommended easy = true
recommended good = true
recommended tight = false
recommended spill = false
recommended too_big = false

-- `estimate_tps`: 80 % of the bandwidth by the size, as the pair that is divided; 0 where the bandwidth is
-- not known.
unfoldable pub estimate_tps : ℕ → ℕ → ℕ × ℕ
estimate_tps size bandwidth =
    if bandwidth == 0 || size == 0 then (0, 1) else (bandwidth * 80, size * 10)

-- What stands in the column "~tok/s": the estimate, or a bound, 30 % of it, for a model over the budget.
pub data Throughput : Type 0 where
  hidden : Throughput
  about : ℕ × ℕ → Throughput
  below : ℕ × ℕ → Throughput

unfoldable pub throughput : ℤ → ℕ → ModelEntry → Throughput
unfolding within estimate_tps
throughput budget bandwidth m =
    let (n, d) = estimate_tps m.size bandwidth in
    if bandwidth == 0
    then hidden
    else if within 100 m.size budget
    then about (n, d)
    else below (n * 3, d * 10)

-- One line of `print_model_table`.
pub record Row : Type 0 where
  pub marked : Bool
  pub model : ModelEntry
  pub fit : Fit
  pub speed : Throughput

unfoldable pub row : ℤ → ℕ → ModelEntry → Row
unfolding fit_of recommended throughput
row budget bandwidth m =
    let fit = fit_of m.size budget in
    record { marked = recommended fit; model = m; fit = fit; speed = throughput budget bandwidth m }

unfoldable pub print_model_table : List ModelEntry → ℤ → ℕ → List Row
unfolding row
print_model_table models budget bandwidth = map (row budget bandwidth) models

-- The gigabytes for a model: of the GPU's memory, or else of the RAM; 85 % of it where they are one.
unfoldable pub model_budget : HwInfo → ℤ
unfolding quot ◌*ℤ◌
model_budget hw =
    let budget =
      if ltb_ℤ (pos 0) hw.effective_gpu_mem then hw.effective_gpu_mem else hw.ram_available_bytes in
    let budget_gb = quot budget gb in
    if hw.is_uma then quot (budget_gb *ℤ pos 85) 100 else budget_gb
