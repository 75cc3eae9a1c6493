-- ===== src/Recommend/Context.antt =====
-- The recommended context of src/recommend.c, and the memory that is left for it.
use professor_ai.Prelude.{
  ℕ, zero, suc, ◌+◌, ◌*◌, ◌≤◌, ◌≡◌, refl, ◌∙◌, inl, inr, Bool, true, false, Option, none, some,
  List, [], ◌∷◌, if◌then◌else◌, ltb, leb, arith, Bool-cases, get_elem?,
}
use professor_ai.Prelude.Int.{ℤ, pos_part}
use professor_ai.Recommend.{gb}
use professor_ai.Recommend.Models.{ModelEntry, smallest, larger_models, hermes_models, within}
use professor_ai.Recommend.Picks.{
  suits, pick_loop, top_pick, remaining, ctx_options, kv_within, kv_fit, better, ctx_loop,
  recommended_ctx, or_smallest,
}
use professor_ai.Recommend.Budget.{top_pick-largest}

-- A context is recommended exactly where the cache takes at most 85 % of what is left.
better-kv_fit :
    (left : ℕ) (m : ModelEntry) (ctx best : ℕ)
    → better (kv_fit left m ctx) ctx best ≡ (if kv_within 85 left m ctx then ctx else best)
unfolding better kv_fit kv_within
better-kv_fit left m ctx best = ground arith

better-within :
    (left : ℕ) (m : ModelEntry) (ctx best : ℕ)
    → kv_within 85 left m best ≡ true
    → kv_within 85 left m (better (kv_fit left m ctx) ctx best) ≡ true
better-within left m ctx best h = elim (Bool-cases (kv_within 85 left m ctx)) [
  | inl fits ↦ rw (better-kv_fit left m ctx best, fits) fits
  | inr not_so ↦ rw (better-kv_fit left m ctx best, not_so) h
]

-- If the first choice is within 85 %, so is the result.
ctx_loop-within :
    (left : ℕ) (m : ModelEntry) (best : ℕ) (options : List ℕ)
    → kv_within 85 left m best ≡ true
    → kv_within 85 left m (ctx_loop left m best options).1 ≡ true
unfolding ctx_loop
ctx_loop-within left m best [] h = h
ctx_loop-within left m best (ctx ∷ options) h =
    let chosen = better (kv_fit left m ctx) ctx best in
    elim (Bool-cases (ltb m.max_ctx ctx)) [
      | inl above ↦ rw above h
      | inr under ↦
          rw under (ctx_loop-within left m chosen options (better-within left m ctx best h))
    ]

abbrev kv_max : ℕ
kv_max = 163840

abbrev IsSmall : List ModelEntry → Type 0
IsSmall [] = 0 ≤ kv_max
IsSmall (m ∷ ms) = (m.kv_bytes_per_tok ≤ kv_max) × IsSmall ms

hermes-IsSmall : IsSmall hermes_models
unfolding hermes_models smallest larger_models
hermes-IsSmall = omega arith

pick_loop-kv :
    (budget : ℤ) (best : Option ModelEntry) (ms : List ModelEntry)
    → (or_smallest best).kv_bytes_per_tok ≤ kv_max
    → IsSmall ms
    → (or_smallest (pick_loop budget best ms)).kv_bytes_per_tok ≤ kv_max
unfolding pick_loop or_smallest
pick_loop-kv budget best [] h small = h
pick_loop-kv budget best (m ∷ ms) h (le, small) =
    pick_loop-kv budget (if suits budget m then some m else best) ms (either (suits budget m)) small
  where
    either : (b : Bool) → (or_smallest (if b then some m else best)).kv_bytes_per_tok ≤ kv_max
    either true = le
    either false = h

-- A pick leaves enough for the smallest of the contexts.
kv_within-first :
    (budget : ℤ) (m : ModelEntry)
    → suits budget m ≡ true
    → m.kv_bytes_per_tok ≤ kv_max
    → kv_within 85 (remaining budget m) m 4096 ≡ true
unfolding suits within remaining kv_within
kv_within-first budget m fits small = ground arith

-- What is left, and a part of it, for any cache of `k` bytes.
fits_together :
    (budget : ℤ) (m : ModelEntry) (k : ℕ)
    → suits budget m ≡ true
    → leb (k * 1000) (remaining budget m * 85 * gb) ≡ true
    → m.size * gb + k * 10 ≤ pos_part budget * 10 * gb
unfolding suits within remaining
fits_together budget m k fits h = ground arith

top_pick-kv : (budget : ℤ) → (top_pick budget).kv_bytes_per_tok ≤ kv_max
unfolding top_pick or_smallest smallest
top_pick-kv budget = pick_loop-kv budget none hermes_models (omega arith) hermes-IsSmall

-- If some model of the Hermes table suits the budget, then the recommended model and the cache of the
-- recommended context fit it together.
pub recommendation_fits :
    (budget : ℤ) (i : ℕ) (x : ModelEntry)
    → get_elem? hermes_models i ≡ some x
    → suits budget x ≡ true
    → (top_pick budget).size * gb
        + (top_pick budget).kv_bytes_per_tok * recommended_ctx budget (top_pick budget) * 10
      ≤ pos_part budget * 10 * gb
unfolding recommended_ctx kv_within
recommendation_fits budget i x at this =
    let (_, fits) = top_pick-largest budget i x at this in
    let best = top_pick budget in
    let left = remaining budget best in
    let cache =
      ctx_loop-within left best 4096 ctx_options
        (kv_within-first budget best fits (top_pick-kv budget)) in
    fits_together budget best (best.kv_bytes_per_tok * recommended_ctx budget best) fits cache

-- The options ascend from `low`.
abbrev Up : ℕ → List ℕ → Type 0
Up low [] = 0 ≤ low
Up low (c ∷ cs) = (low ≤ c) × Up c cs

Up-lower : (low low' : ℕ) (cs : List ℕ) → low ≤ low' → Up low' cs → Up low cs
Up-lower low low' [] le up = omega arith
Up-lower low low' (c ∷ cs) le (le', up) = (omega arith, up)

Up-elem : (low : ℕ) (cs : List ℕ) (j c : ℕ) → Up low cs → get_elem? cs j ≡ some c → low ≤ c
Up-elem low [] j c up at = ground (arith, at)
Up-elem low (d ∷ cs) zero c (le, up) at = let e : d ≡ c = ground (arith, at) in omega arith
Up-elem low (d ∷ cs) (suc j) c (le, up) at = omega (arith, Up-elem d cs j c up at)

better-between :
    (left : ℕ) (m : ModelEntry) (ctx best : ℕ)
    → best ≤ ctx
    → (best ≤ better (kv_fit left m ctx) ctx best) × (better (kv_fit left m ctx) ctx best ≤ ctx)
better-between left m ctx best le = rw (better-kv_fit left m ctx best) (ground arith)

ctx_loop-larger :
    (left : ℕ) (m : ModelEntry) (best : ℕ) (options : List ℕ)
    → Up best options
    → best ≤ (ctx_loop left m best options).1
unfolding ctx_loop
ctx_loop-larger left m best [] up = omega arith
ctx_loop-larger left m best (ctx ∷ options) (le, up) =
    let chosen = better (kv_fit left m ctx) ctx best in
    let (above, below) = better-between left m ctx best le in
    let rest = ctx_loop-larger left m chosen options (Up-lower chosen ctx options below up) in
    ground arith

ctx_loop-largest :
    (left : ℕ) (m : ModelEntry) (best : ℕ) (options : List ℕ) (j c : ℕ)
    → Up best options
    → get_elem? options j ≡ some c
    → c ≤ m.max_ctx
    → kv_within 85 left m c ≡ true
    → c ≤ (ctx_loop left m best options).1
unfolding ctx_loop
ctx_loop-largest left m best [] j c up at le fits = ground (arith, at)
ctx_loop-largest left m best (ctx ∷ options) zero c (low, up) at le fits =
    let e : ctx ≡ c = ground (arith, at) in
    let fits' : kv_within 85 left m ctx ≡ true = rw e fits in
    let under : ltb m.max_ctx ctx ≡ false = ground (arith, e) in
    let chosen = better (kv_fit left m ctx) ctx best in
    let same : chosen ≡ ctx = better-kv_fit left m ctx best ∙ rw fits' refl in
    let (above, below) = better-between left m ctx best low in
    let rest = ctx_loop-larger left m chosen options (Up-lower chosen ctx options below up) in
    rw under omega arith
ctx_loop-largest left m best (ctx ∷ options) (suc j) c (low, up) at le fits =
    let chosen = better (kv_fit left m ctx) ctx best in
    let (above, below) = better-between left m ctx best low in
    let under : ltb m.max_ctx ctx ≡ false = ground (arith, Up-elem ctx options j c up at) in
    rw under
      (ctx_loop-largest left m chosen options j c (Up-lower chosen ctx options below up) at le fits)

-- Each option that the model takes, and whose cache is within 85 % of what is left, is at most the
-- recommended context.
pub recommended_ctx-largest :
    (budget : ℤ) (m : ModelEntry) (j c : ℕ)
    → get_elem? ctx_options j ≡ some c
    → c ≤ m.max_ctx
    → kv_within 85 (remaining budget m) m c ≡ true
    → c ≤ recommended_ctx budget m
unfolding recommended_ctx
recommended_ctx-largest budget m j c at le fits =
    ctx_loop-largest (remaining budget m) m 4096 ctx_options j c (omega arith) at le fits
