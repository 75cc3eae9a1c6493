-- ===== src/Inference/Delivery.antt =====
-- src/inference.c: what the generation loop hands to its callback, against the model's own stream of
-- pieces.
use professor_ai.Prelude.{
  ℕ, zero, suc, ◌+◌, ◌≤◌, ◌≡◌, ◌≢◌, refl, ap, sym, ◌∙◌, ◌⊎◌, inl, inr, Bool, true, false, Option,
  none, some, ◌++◌, append-nil, append_assoc, length, take, arith, Option-cases,
}
use mathlib.Core.Path.{subst}
use professor_ai.Prelude.Bytes.{Bytes}
use professor_ai.Inference.Pieces.{Collects, HasShortPieces, deal, joined_pieces, c_string-length}
use professor_ai.Inference.Generate.{
  FinishReason, length_limit, stop, abort, backend_error, Model, Signals, Watch, Gen, c_string,
  interrupted, round, generate, piece_bytes, counted, left_or,
}

module _ (m : Model) {S W : Type 0} (watch : Watch W) (cb : S → Bytes → S × Bool) {limit : ℕ}
    (col : Collects limit cb) (short : HasShortPieces limit m) (env : ℕ → Signals) where
  open m use {Ctx, Token, sample, is_eos, piece, decode}
  open col use {text, Holds}

  -- The first `k` pieces of the stream have been collected, and counted: one more is counted than
  -- collected where the loop ended on a stop sequence or at the callback's wish.
  abbrev pub IsDelivered : ℕ → Gen Ctx S W → Gen Ctx S W × FinishReason → Type 0
  IsDelivered rounds g out =
      (k : ℕ) × (k ≤ rounds)
      × (text out.0.user ≡ text g.user ++ joined_pieces (take k (deal m rounds g.ctx)))
      × ((out.0.generated ≡ g.generated + k)
          ⊎ (out.0.generated ≡ g.generated + k + 1) × ((out.1 ≡ stop) ⊎ (out.1 ≡ abort)))
      × ((k ≡ rounds) ⊎ (out.1 ≢ length_limit))
      × Holds out.0.user

  -- What a round may do.
  abbrev Left : Gen Ctx S W → Gen Ctx S W × Option FinishReason → Type 0
  Left g (g', r) =
      (why : FinishReason) × (r ≡ some why)
      × (why ≢ length_limit)
      × (text g'.user ≡ text g.user)
      × Holds g'.user
      × ((g'.generated ≡ g.generated)
          ⊎ (g'.generated ≡ g.generated + 1) × ((why ≡ stop) ⊎ (why ≡ abort)))

  abbrev Took : Gen Ctx S W → Gen Ctx S W × Option FinishReason → Type 0
  Took g (g', r) =
      let (token, ctx) = sample g.ctx in
      (text g'.user ≡ text g.user ++ c_string (piece_bytes m token))
      × (g'.generated ≡ g.generated + 1)
      × (g'.ctx ≡ (decode ctx token).1)
      × Holds g'.user
      × ((r ≡ none) ⊎ (r ≡ some backend_error))

  piece_short : (token : Token) → length (c_string (piece_bytes m token)) ≤ limit
  unfolding piece_bytes c_string
  piece_short token = elim (Option-cases (piece token)) [
    | inl e ↦ rw (e, piece_bytes, c_string, length) (omega arith)
    | inr (p, e) ↦ rw (e, piece_bytes) (omega (arith, short token p e, c_string-length p))
  ]

  -- The branches of a round, over the values it computes.
  abbrev outcome :
      Option FinishReason
      → Bool
      → Bool
      → S × Bool
      → Bool × Ctx
      → Gen Ctx S W
      → Ctx
      → Gen Ctx S W
      → Gen Ctx S W × Option FinishReason
  outcome (some why) eos hit called decoded g ctx g' = (g, some why)
  outcome none true hit called decoded g ctx g' = (record g { ctx = ctx }, some stop)
  outcome none false true called decoded g ctx g' = (g', some stop)
  outcome none false false (user, false) decoded g ctx g' = (record g' { user = user }, some abort)
  outcome none false false (user, true) (false, ctx') g ctx g' =
      (record g' { user = user; ctx = ctx' }, some backend_error)
  outcome none false false (user, true) (true, ctx') g ctx g' =
      (record g' { user = user; ctx = ctx' }, none)

  interrupted_lem :
      (i : ℕ) (why : FinishReason) → interrupted m watch cb env i ≡ some why → why ≢ length_limit
  unfolding interrupted
  interrupted_lem i why h e = ground arith

  round-outcome :
      (i : ℕ) (g : Gen Ctx S W)
      → let (token, ctx) = sample g.ctx in
        let p = piece_bytes m token in
        let g' = counted m watch cb env g ctx p in
        round m watch cb env i g
        ≡ outcome
            (interrupted m watch cb env i)
            (is_eos token)
            (watch.hit g'.watched)
            (cb g.user (c_string p))
            (decode ctx token)
            g
            ctx
            g'
  unfolding round
  round-outcome i g = ground arith

  -- What the callback's answer may be.
  abbrev Answers : Gen Ctx S W → Bytes → S × Bool → Type 0
  Answers g p (user, go_on) =
      Holds user
      × (go_on ≡ true → text user ≡ text g.user ++ p)
      × (go_on ≡ false → text user ≡ text g.user)

  outcome-cases :
      (r : Option FinishReason) (eos hit : Bool) (called : S × Bool) (decoded : Bool × Ctx)
      (g g' : Gen Ctx S W) (ctx : Ctx) (p : Bytes)
      → ((why : FinishReason) → r ≡ some why → why ≢ length_limit)
      → (g'.user ≡ g.user) × (g'.generated ≡ g.generated + 1)
      → Holds g.user
      → Answers g p called
      → let x = outcome r eos hit called decoded g ctx g' in
        Left g x
        ⊎ (text x.0.user ≡ text g.user ++ p)
          × (x.0.generated ≡ g.generated + 1)
          × (x.0.ctx ≡ decoded.1)
          × Holds x.0.user
          × ((x.1 ≡ none) ⊎ (x.1 ≡ some backend_error))
  outcome-cases (some why) eos hit called decoded g g' ctx p no_limit same held a =
      inl (why, refl, no_limit why refl, refl, held, inl refl)
  outcome-cases none true hit called decoded g g' ctx p no_limit same held a =
      inl (stop, refl, (λ e. cc), refl, held, inl refl)
  outcome-cases none false true called decoded g g' ctx p no_limit (u, n) held a =
      inl (stop, refl, (λ e. cc), ap text u, subst Holds (sym u) held, inr (n, inl refl))
  outcome-cases none false false (user, false) decoded g g' ctx p no_limit (u, n) held a =
      inl (abort, refl, (λ e. cc), a.2 refl, a.0, inr (n, inr refl))
  outcome-cases none false false (user, true) (false, ctx') g g' ctx p no_limit (u, n) held a =
      inr (a.1 refl, n, refl, a.0, inr refl)
  outcome-cases none false false (user, true) (true, ctx') g g' ctx p no_limit (u, n) held a =
      inr (a.1 refl, n, refl, a.0, inl refl)

  round-cases :
      (i : ℕ) (g : Gen Ctx S W)
      → Holds g.user
      → Left g (round m watch cb env i g) ⊎ Took g (round m watch cb env i g)
  unfolding counted
  round-cases i g h =
      let (token, ctx) = sample g.ctx in
      let p = c_string (piece_bytes m token) in
      let fits = piece_short token in
      let g' = counted m watch cb env g ctx (piece_bytes m token) in
      rw (round-outcome i g) (
        outcome-cases (interrupted m watch cb env i) (is_eos token) (watch.hit g'.watched)
          (cb g.user p) (decode ctx token) g g' ctx p (interrupted_lem i) (refl, refl) h
          (col.keeps g.user p fits h, col.appends g.user p fits h, col.refuses g.user p fits h))

  -- A round and the rest of the loop.
  next-IsDelivered :
      (rounds : ℕ) (g : Gen Ctx S W) (next : Gen Ctx S W × Option FinishReason)
      (rest : Gen Ctx S W × FinishReason)
      → Left g next ⊎ Took g next
      → (Holds next.0.user → IsDelivered rounds next.0 rest)
      → IsDelivered (suc rounds) g (left_or m watch cb env next.1 next.0 rest)
  unfolding deal joined_pieces
  next-IsDelivered rounds g (g', r) rest (inl (why, e, no_limit, t, held, inl n)) ih = rw e (
    0,
    omega arith,
    t ∙ sym (append-nil (text g.user)),
    inl (omega (arith, n)),
    inr no_limit,
    held,
  )
  next-IsDelivered rounds g (g', r) rest (inl (why, e, no_limit, t, held, inr (n, w))) ih = rw e (
    0,
    omega arith,
    t ∙ sym (append-nil (text g.user)),
    inr (omega (arith, n), w),
    inr no_limit,
    held,
  )
  next-IsDelivered rounds g (g', r) rest (inr (t, n, c, held, inr e)) ih =
      let one = append-nil (c_string (piece_bytes m (sample g.ctx).0)) in
      rw e (1, omega arith, t ∙ ap (λ q. text g.user ++ q) (sym one), inl n, inr (λ l. cc), held)
  next-IsDelivered rounds g (g', r) rest (inr (t, n, c, held, inl e)) ih =
      let (k, below, grown, count, limit, kept) = ih held in
      let p = c_string (piece_bytes m (sample g.ctx).0) in
      let (token, ctx) = sample g.ctx in
      let ps = joined_pieces (take k (deal m rounds (decode ctx token).1)) in
      rw e (
        suc k,
        omega arith,
        (rw (c, t) at grown) ∙ append_assoc (text g.user) p ps,
        elim count [ inl a ↦ inl (omega arith) | inr (a, w) ↦ inr (omega arith, w) ],
        elim limit [ inl all ↦ inl (ap suc all) | inr other ↦ inr other ],
        kept,
      )

  -- The text that the callback keeps grows by the first `k` pieces of the model's stream, for a `k`
  -- of at most the number of rounds: no piece is lost, repeated or reordered. As many tokens are
  -- counted, or one more where the loop ended on a stop sequence or at the callback's wish; and a
  -- loop that ends for length has delivered a piece in each round.
  pub generate-IsDelivered :
      (rounds i : ℕ) (g : Gen Ctx S W)
      → Holds g.user
      → IsDelivered rounds g (generate m watch cb env rounds i g)
  unfolding generate deal joined_pieces
  generate-IsDelivered zero i g h =
      (0, omega arith, sym (append-nil (text g.user)), inl (omega arith), inl refl, h)
  generate-IsDelivered (suc rounds) i g h =
      let next = round m watch cb env i g in
      next-IsDelivered rounds g next (generate m watch cb env rounds (i + 1) next.0)
        (round-cases i g h) (generate-IsDelivered rounds (i + 1) next.0)
