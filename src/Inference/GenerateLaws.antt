-- ===== src/Inference/GenerateLaws.antt =====
-- src/inference.c: the generation loop with its rolling window does what the loop that keeps the
-- whole text does, and stays within its budget of tokens.
use professor_ai.Prelude.{
  ℕ, zero, suc, ◌+◌, ◌≤◌, ◌<◌, ◌≡◌, refl, ap, inl, inr, Bool, true, ◌&&◌, Option, some, List, ◌++◌,
  if◌then◌else◌, ltb, arith, Bool-cases, Option-cases, ◌-◌, ◌||◌, ℕ_discrete,
}
use professor_ai.Prelude.Bytes.{Bytes}
use professor_ai.Api.WellFormed.{AllFit}
use professor_ai.Inference.Window.{push_piece, any_stop}
use professor_ai.Inference.WindowLaws.{last, push_piece-last, any_ends, any_stop-last}
use professor_ai.Inference.Generate.{
  FinishReason, abort, Model, Signals, Watch, window_watch, Gen, round, generate, piece_bytes,
}

-- The loop's specification: it keeps all that was generated, and looks at its end.
abbrev pub text_watch : ℕ → List Bytes → Watch Bytes
text_watch n stops = record {
  push = λ t p. if ltb 0 n then t ++ p else t;
  hit = λ t. ltb 0 n && any_ends n stops t;
}

-- The state of the loop over the window that goes with a state over the text.
abbrev pub windowed : {C S : Type 0} → Gen C S Bytes → Gen C S Bytes
windowed g = record g { watched = last g.watched }

push-windowed :
    (n : ℕ) (stops : List Bytes) (t p : Bytes)
    → (window_watch n stops).push (last t) p ≡ last ((text_watch n stops).push t p)
unfolding push_piece any_stop
push-windowed n stops t p = elim (Bool-cases (ltb 0 n)) [
  | inl h ↦ rw h (push_piece-last t p)
  | inr h ↦ rw h
]

hit-windowed :
    (n : ℕ) (stops : List Bytes) (t : Bytes)
    → AllFit stops
    → (window_watch n stops).hit (last t) ≡ (text_watch n stops).hit t
unfolding push_piece any_stop
hit-windowed n stops t f = ap (◌&&◌ (ltb 0 n)) (any_stop-last n stops t f)

module _ (m : Model) {S : Type 0} (n : ℕ) (stops : List Bytes) (fits : AllFit stops)
    (cb : S → Bytes → S × Bool) (env : ℕ → Signals) where
  open m use {Ctx, Token, sample, is_eos, piece, decode}

  round-windowed :
      (i : ℕ) (g : Gen Ctx S Bytes)
      → ((round m (window_watch n stops) cb env i (windowed g)).0
          ≡ windowed (round m (text_watch n stops) cb env i g).0)
        × ((round m (window_watch n stops) cb env i (windowed g)).1
            ≡ (round m (text_watch n stops) cb env i g).1)
  unfolding round
  round-windowed i g =
      let p = piece_bytes m (sample g.ctx).0 in
      let taken = push-windowed n stops g.watched p in
      let seen = hit-windowed n stops ((text_watch n stops).push g.watched p) fits in
      ground (arith, taken, seen)

  -- With stop sequences of fewer than 64 bytes, the loop with the rolling window generates the same
  -- tokens, calls the callback on the same pieces and stops for the same reason as the loop that
  -- compares the end of the whole text.
  pub generate-windowed :
      (rounds i : ℕ) (g : Gen Ctx S Bytes)
      → ((generate m (window_watch n stops) cb env rounds i (windowed g)).0
          ≡ windowed (generate m (text_watch n stops) cb env rounds i g).0)
        × ((generate m (window_watch n stops) cb env rounds i (windowed g)).1
            ≡ (generate m (text_watch n stops) cb env rounds i g).1)
  unfolding generate
  generate-windowed zero i g = (refl, refl)
  generate-windowed (suc rounds) i g =
      let r = round-windowed i g in
      let next = (round m (text_watch n stops) cb env i g).0 in
      elim (Option-cases (round m (text_watch n stops) cb env i g).1) [
        | inl e ↦ rw (r.0, r.1, e) (generate-windowed rounds (i + 1) next)
        | inr (why, e) ↦ rw (r.0, r.1, e) (refl, refl)
      ]

module _ (m : Model) {S W : Type 0} (watch : Watch W) (cb : S → Bytes → S × Bool)
    (env : ℕ → Signals) where
  open m use {Ctx}

  -- A round generates at most one token, and none when it finds a flag up.
  round-generated :
      (i : ℕ) (g : Gen Ctx S W)
      → (g.generated ≤ (round m watch cb env i g).0.generated)
        × ((round m watch cb env i g).0.generated ≤ g.generated + 1)
  unfolding round
  round-generated i g = ground arith

  -- The loop generates at most one token a round.
  pub generate-budget :
      (rounds i : ℕ) (g : Gen Ctx S W)
      → (g.generated ≤ (generate m watch cb env rounds i g).0.generated)
        × ((generate m watch cb env rounds i g).0.generated ≤ g.generated + rounds)
  unfolding generate
  generate-budget zero i g = omega arith
  generate-budget (suc rounds) i g =
      let r = round-generated i g in
      let ih = generate-budget rounds (i + 1) (round m watch cb env i g).0 in
      elim (Option-cases (round m watch cb env i g).1) [
        | inl e ↦ rw e (omega arith)
        | inr (why, e) ↦ rw e (omega arith)
      ]

  round_stopped :
      (i : ℕ) (g : Gen Ctx S W)
      → ((env i).shutdown || (env i).cancel) ≡ true
      → round m watch cb env i g ≡ (g, some abort)
  unfolding round
  round_stopped i g h = ground arith

  -- If the cancel flag or the shutdown flag is up in round `k`, a loop that would reach that round
  -- generates at most one token for each round before it.
  pub generate_cancelled :
      (rounds i k : ℕ) (g : Gen Ctx S W)
      → i ≤ k
      → k < i + rounds
      → ((env k).shutdown || (env k).cancel) ≡ true
      → (generate m watch cb env rounds i g).0.generated ≤ g.generated + (k - i)
  unfolding generate
  generate_cancelled zero i k g lo hi h = absurd (omega arith)
  generate_cancelled (suc rounds) i k g lo hi h = elim (ℕ_discrete i k) [
    | yes e ↦
        let up : ((env i).shutdown || (env i).cancel) ≡ true = rw e h in
        let st = round_stopped i g up in
        rw (ap (λ (r : Gen Ctx S W × Option FinishReason). r.1) st)
          (omega (arith, ap (λ (r : Gen Ctx S W × Option FinishReason). r.0.generated) st))
    | no ne ↦
        let r = round-generated i g in
        let ih =
          generate_cancelled rounds (i + 1) k (round m watch cb env i g).0 (omega arith)
            (omega arith) h in
        elim (Option-cases (round m watch cb env i g).1) [
          | inl e ↦ rw e (omega arith)
          | inr (why, e) ↦ rw e (omega arith)
        ]
  ]
