-- ===== src/Recommend/Budget.antt =====
-- The top pick of src/recommend.c among the models of the table.
use professor_ai.Prelude.{
  ℕ, zero, suc, ◌≤◌, ◌≡◌, refl, ap, sym, ◌∙◌, inl, inr, true, false, none, some, List, [], ◌∷◌,
  if◌then◌else◌, arith, Bool-cases, get_elem?,
}
use professor_ai.Prelude.Int.{ℤ}
use professor_ai.Recommend.Models.{ModelEntry, smallest, larger_models, hermes_models}
use professor_ai.Recommend.Picks.{suits, pick_loop, or_smallest, top_pick}

-- The sizes ascend from `low`.
abbrev Ascends : ℕ → List ModelEntry → Type 0
Ascends low [] = 0 ≤ low
Ascends low (m ∷ ms) = (low ≤ m.size) × Ascends m.size ms

-- The pick of a loop that has one already.
abbrev pick_from : ℤ → ModelEntry → List ModelEntry → ModelEntry
pick_from budget best [] = best
pick_from budget best (m ∷ ms) = pick_from budget (if suits budget m then m else best) ms

pick_loop-some :
    (budget : ℤ) (best : ModelEntry) (ms : List ModelEntry)
    → pick_loop budget (some best) ms ≡ some (pick_from budget best ms)
unfolding pick_loop
pick_loop-some budget best [] = refl
pick_loop-some budget best (m ∷ ms) = elim (Bool-cases (suits budget m)) [
  | inl fits ↦ simp (fits, pick_loop-some budget m ms)
  | inr not_so ↦ simp (not_so, pick_loop-some budget best ms)
]

Ascends-lower :
    (low low' : ℕ) (ms : List ModelEntry) → low ≤ low' → Ascends low' ms → Ascends low ms
Ascends-lower low low' [] le asc = omega arith
Ascends-lower low low' (m ∷ ms) le (le', asc) = (omega arith, asc)

abbrev next : ℤ → ModelEntry → ModelEntry → ModelEntry
next budget best m = if suits budget m then m else best

next_lem :
    (budget : ℤ) (best m : ModelEntry) (ms : List ModelEntry)
    → best.size ≤ m.size
    → Ascends m.size ms
    → suits budget best ≡ true
    → (best.size ≤ (next budget best m).size)
      × Ascends (next budget best m).size ms
      × (suits budget (next budget best m) ≡ true)
next_lem budget best m ms le asc fits = elim (Bool-cases (suits budget m)) [
  | inl this ↦ rw this (le, asc, this)
  | inr not_so ↦ rw not_so (omega arith, Ascends-lower best.size m.size ms le asc, fits)
]

-- The pick of an ascending list is a model that suits, at least as large as the one before.
pick_from-larger :
    (budget : ℤ) (best : ModelEntry) (ms : List ModelEntry)
    → Ascends best.size ms
    → suits budget best ≡ true
    → (best.size ≤ (pick_from budget best ms).size)
      × (suits budget (pick_from budget best ms) ≡ true)
pick_from-larger budget best [] asc fits = (omega arith, fits)
pick_from-larger budget best (m ∷ ms) (le, asc) fits =
    let (le', asc', fits') = next_lem budget best m ms le asc fits in
    let (le'', fits'') = pick_from-larger budget (next budget best m) ms asc' fits' in
    (omega arith, fits'')

pick_from-largest :
    (budget : ℤ) (best : ModelEntry) (ms : List ModelEntry) (i : ℕ) (x : ModelEntry)
    → Ascends best.size ms
    → suits budget best ≡ true
    → get_elem? ms i ≡ some x
    → suits budget x ≡ true
    → x.size ≤ (pick_from budget best ms).size
pick_from-largest budget best [] i x asc fits at this = ground (arith, at)
pick_from-largest budget best (m ∷ ms) zero x (le, asc) fits at this =
    let e : m ≡ x = ground (arith, at) in
    let now : next budget best m ≡ m = rw (e, this) refl in
    let (_, asc', fits') = next_lem budget best m ms le asc fits in
    let (le', _) = pick_from-larger budget (next budget best m) ms asc' fits' in
    let same : x.size ≡ (next budget best m).size = ap (λ v. v.size) (sym e ∙ sym now) in
    omega arith
pick_from-largest budget best (m ∷ ms) (suc i) x (le, asc) fits at this =
    let (_, asc', fits') = next_lem budget best m ms le asc fits in
    pick_from-largest budget (next budget best m) ms i x asc' fits' at this

-- The loop picks a model that suits and is as large as `x`.
abbrev IsPick : ℤ → List ModelEntry → ModelEntry → Type 0
IsPick budget ms x =
    (r : ModelEntry) × (pick_loop budget none ms ≡ some r)
    × (x.size ≤ r.size)
    × (suits budget r ≡ true)

-- A model that does not suit is passed over.
IsPick-later :
    (budget : ℤ) (m : ModelEntry) (ms : List ModelEntry) (i : ℕ) (x : ModelEntry)
    → suits budget m ≡ false
    → get_elem? (m ∷ ms) i ≡ some x
    → suits budget x ≡ true
    → ((j : ℕ) → get_elem? ms j ≡ some x → IsPick budget ms x)
    → IsPick budget (m ∷ ms) x
unfolding pick_loop
IsPick-later budget m ms zero x not_so at this later =
    let e : m ≡ x = ground (arith, at) in
    let no : suits budget x ≡ false = rw (← e) not_so in ground arith
IsPick-later budget m ms (suc i) x not_so at this later =
    let (r, picked, le, kept) = later i at in (r, simp (not_so, picked), le, kept)

IsPick-largest :
    (budget : ℤ) (low : ℕ) (ms : List ModelEntry) (i : ℕ) (x : ModelEntry)
    → Ascends low ms
    → get_elem? ms i ≡ some x
    → suits budget x ≡ true
    → IsPick budget ms x
unfolding pick_loop
IsPick-largest budget low [] i x asc at this = ground (arith, at)
IsPick-largest budget low (m ∷ ms) i x (le, asc) at this = elim (Bool-cases (suits budget m)) [
  | inl fits ↦
      let (_, kept) = pick_from-larger budget m ms asc fits in
      let largest = pick_from-largest budget m (m ∷ ms) i x (omega arith, asc) fits at this in
      let same : pick_from budget (next budget m m) ms ≡ pick_from budget m ms = rw fits refl in
      (pick_from budget m ms, simp (fits, pick_loop-some budget m ms), rw (← same) largest, kept)
  | inr not_so ↦
      IsPick-later budget m ms i x not_so at this
        (λ j h. IsPick-largest budget m.size ms j x asc h this)
]

hermes_asc : Ascends 0 hermes_models
unfolding hermes_models smallest larger_models
hermes_asc = omega arith

-- If a model of the Hermes table is over 10 GB and within 85 % of the budget, then so is the top pick,
-- and no such model is larger.
pub top_pick-largest :
    (budget : ℤ) (i : ℕ) (x : ModelEntry)
    → get_elem? hermes_models i ≡ some x
    → suits budget x ≡ true
    → (x.size ≤ (top_pick budget).size) × (suits budget (top_pick budget) ≡ true)
unfolding top_pick or_smallest
top_pick-largest budget i x at this =
    let (r, picked, le, kept) = IsPick-largest budget 0 hermes_models i x hermes_asc at this in
    let same : top_pick budget ≡ r = ap or_smallest picked in rw same (le, kept)
