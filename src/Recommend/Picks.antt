-- ===== src/Recommend/Picks.antt =====
-- The top pick and the recommended context of `hw_print_recommendations` in src/recommend.c.
use professor_ai.Prelude.{
  ℕ, ◌+◌, ◌-◌, ◌*◌, Bool, ◌&&◌, Option, none, some, List, [], ◌∷◌, if◌then◌else◌, ltb, leb,
}
use professor_ai.Prelude.Int.{ℤ, pos_part, neg_part}
use professor_ai.Recommend.{HwInfo, gb}
use professor_ai.Recommend.Models.{
  Row, other_models, estimate_tps, print_model_table, ModelEntry, smallest, hermes_models, within,
  Fit, easy, good, tight, too_big, model_budget,
}

-- The test of the loop: at most 85 % of the budget, and more than 10 GB.
unfoldable pub suits : ℤ → ModelEntry → Bool
unfolding within
suits budget m = within 85 m.size budget && ltb 100 m.size

unfoldable pub pick_loop : ℤ → Option ModelEntry → List ModelEntry → Option ModelEntry
unfolding suits
pick_loop budget best [] = best
pick_loop budget best (m ∷ ms) = pick_loop budget (if suits budget m then some m else best) ms

unfoldable pub or_smallest : Option ModelEntry → ModelEntry
or_smallest none = smallest
or_smallest (some m) = m

unfoldable pub top_pick : ℤ → ModelEntry
unfolding or_smallest
top_pick budget = or_smallest (pick_loop budget none hermes_models)

-- `remaining_gb`, in tenths; half a gigabyte at least.
unfoldable pub remaining : ℤ → ModelEntry → ℕ
remaining budget m =
    let left = pos_part budget * 10 - (neg_part budget * 10 + m.size) in
    if ltb left 5 then 5 else left

abbrev pub ctx_options : List ℕ
ctx_options = 4096 ∷ 8192 ∷ 16384 ∷ 32768 ∷ 65536 ∷ 131072 ∷ []

-- `kv_gb <= remaining_gb * percent / 100`
unfoldable pub kv_within : ℕ → ℕ → ModelEntry → ℕ → Bool
kv_within percent left m ctx = leb (m.kv_bytes_per_tok * ctx * 1000) (left * percent * gb)

unfoldable pub kv_fit : ℕ → ModelEntry → ℕ → Fit
unfolding kv_within
kv_fit left m ctx =
    if kv_within 50 left m ctx
    then easy
    else if kv_within 85 left m ctx
    then good
    else if kv_within 100 left m ctx
    then tight
    else too_big

-- An easy or a good fit is recommended.
unfoldable pub better : Fit → ℕ → ℕ → ℕ
better easy ctx old = ctx
better good ctx old = ctx
better f ctx old = old

-- The loop over the options: its lines, and `recommended_ctx`.
unfoldable pub ctx_loop : ℕ → ModelEntry → ℕ → List ℕ → List (ℕ × Fit) × ℕ
unfolding kv_fit better
ctx_loop left m best [] = ([], best)
ctx_loop left m best (ctx ∷ options) =
    let fit = kv_fit left m ctx in
    let (rows, last) = ctx_loop left m (better fit ctx best) options in
    if ltb m.max_ctx ctx then ([], best) else ((ctx, fit) ∷ rows, last)

unfoldable pub recommended_ctx : ℤ → ModelEntry → ℕ
unfolding ctx_loop remaining
recommended_ctx budget m = (ctx_loop (remaining budget m) m 4096 ctx_options).1

-- The warning that the context is too small for agents.
unfoldable pub warns : ℕ → Bool
warns ctx = ltb ctx 8192

-- What `hw_print_recommendations` prints, without its fixed texts.
pub record Advice : Type 0 where
  pub hermes : List Row
  pub others : List Row
  pub best : ModelEntry
  pub contexts : List (ℕ × Fit)
  pub n_ctx : ℕ
  pub speed : ℕ × ℕ
  pub small : Bool

unfoldable pub hw_print_recommendations : HwInfo → Advice
unfolding model_budget top_pick recommended_ctx warns remaining
hw_print_recommendations hw =
    let budget = model_budget hw in
    let best = top_pick budget in
    let n_ctx = recommended_ctx budget best in
    record {
      hermes = print_model_table hermes_models budget hw.mem_bandwidth_gbps;
      others = print_model_table other_models budget hw.mem_bandwidth_gbps;
      best = best;
      contexts = (ctx_loop (remaining budget best) best 4096 ctx_options).0;
      n_ctx = n_ctx;
      speed = estimate_tps best.size hw.mem_bandwidth_gbps;
      small = warns n_ctx;
    }
