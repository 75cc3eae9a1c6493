-- ===== src/Inference/CompleteLaws.antt =====
-- src/inference.c: how `inference_complete` ends.
use professor_ai.Prelude.{
  ℕ, zero, suc, ◌+◌, ◌≤◌, ◌<◌, ◌≡◌, refl, ◌⊎◌, inl, inr, Bool, true, false, not, Option, none, some,
  List, [], ◌∷◌, if◌then◌else◌, ltb, leb, ◌==◌, length, take, drop, length-drop, arith,
  Option-cases,
}
use professor_ai.Prelude.Int.{ℤ, pos, negsuc, ltb_ℤ, pos_part, ◌+ℤ◌, ◌-ℤ◌}
use professor_ai.Prelude.Bytes.{Bytes}
use professor_ai.Inference.{SampleParams}
use professor_ai.Inference.Generate.{
  FinishReason, context_overflow, backend_error, Signals, Gen, window_watch,
}
use professor_ai.Inference.GenerateLaws.{generate-budget}
use professor_ai.Inference.Complete.{
  Sampler, Backend, Engine, Outcome, feed, run_loop, run_prompt, complete, failed, after_decode,
  after_feed, cap_tokens, needed_tokens,
}

-- The two reasons that go with a result of -1.
abbrev pub IsFailure : FinishReason → Type 0
IsFailure why = (why ≡ context_overflow) ⊎ (why ≡ backend_error)

not-false : (t : Bool) → not t ≡ false → t ≡ true
not-false true h = refl
not-false false h = cc

-- The cap leaves a budget within the context.
cap_tokens_fits :
    (n_ctx n_prompt : ℕ) (asked : ℤ)
    → ltb_ℤ (pos 0) (cap_tokens n_ctx n_prompt asked) ≡ true
    → (n_prompt + pos_part (cap_tokens n_ctx n_prompt asked) ≤ n_ctx)
      × (pos_part (cap_tokens n_ctx n_prompt asked) ≤ pos_part asked)
unfolding cap_tokens ◌+ℤ◌ ◌-ℤ◌
cap_tokens_fits n_ctx n_prompt asked h = ground arith

module _ {F : Type 0} (b : Backend F) where
  open b use {model, clear, count_tokens, tokenize, decode_batch, make_chain}

  -- The loop over the prompt ended, without an error or with one of the two.
  abbrev IsFed : Option (model.Ctx × Option FinishReason) → Type 0
  IsFed r =
      (ctx : model.Ctx) × (fed : Option FinishReason) × (r ≡ some (ctx, fed))
      × ((fed ≡ none) ⊎ ((why : FinishReason) × (fed ≡ some why) × IsFailure why))

  after_decode-IsFed :
      (rc : ℤ) (ctx : model.Ctx) (rest : Option (model.Ctx × Option FinishReason))
      → IsFed rest
      → IsFed (after_decode b rc ctx rest)
  after_decode-IsFed (pos zero) ctx rest h = h
  after_decode-IsFed (pos (suc zero)) ctx rest h =
      (ctx, some context_overflow, refl, inr (context_overflow, refl, inl refl))
  after_decode-IsFed (pos (suc (suc n))) ctx rest h =
      (ctx, some backend_error, refl, inr (backend_error, refl, inr refl))
  after_decode-IsFed (negsuc n) ctx rest h =
      (ctx, some backend_error, refl, inr (backend_error, refl, inr refl))

  -- With a batch size above zero the loop over the prompt ends, in at most as many rounds as there
  -- are tokens.
  feed-IsFed :
      (fuel n_batch : ℕ) (ctx : model.Ctx) (tokens : List (model.Token))
      → 0 < n_batch
      → length tokens ≤ fuel
      → IsFed (feed b fuel n_batch ctx tokens)
  unfolding feed
  feed-IsFed zero n_batch ctx [] h e = (ctx, none, refl, inl refl)
  feed-IsFed zero n_batch ctx (t ∷ ts) h e = absurd (omega arith)
  feed-IsFed (suc fuel) n_batch ctx [] h e = (ctx, none, refl, inl refl)
  feed-IsFed (suc fuel) n_batch ctx (t ∷ ts) h e =
      let chunk = if ltb n_batch (length (t ∷ ts)) then n_batch else length (t ∷ ts) in
      let progress : 0 < chunk = ground arith in
      let left = length-drop chunk (t ∷ ts) in
      let step = decode_batch ctx (take chunk (t ∷ ts)) in
      after_decode-IsFed step.0 step.1 _
        (feed-IsFed fuel n_batch step.1 (drop chunk (t ∷ ts)) h (omega arith))

  module _ {S : Type 0} (eng : Engine) (params : SampleParams F) (chain : List (Sampler F))
      (cb : S → Bytes → S × Bool) (env : ℕ → Signals) (malloc : Bool) where
    -- How a call ends that was given `user`. A success stays within the context and within
    -- `max_tokens`; a failure generates nothing, never calls the callback, and gives its reason.
    abbrev pub Ends : S → Outcome (model.Ctx) S → Type 0
    Ends user out =
        ((out.ok ≡ true)
          × (out.prompt_tokens + out.completion_tokens ≤ eng.n_ctx)
          × (out.completion_tokens ≤ pos_part params.max_tokens))
        ⊎ ((out.ok ≡ false)
            × (out.completion_tokens ≡ 0)
            × (out.user ≡ user)
            × IsFailure out.reason)

    abbrev pub Returns : S → Option (Outcome (model.Ctx) S) → Type 0
    Returns user r = (out : Outcome (model.Ctx) S) × (r ≡ some out) × Ends user out

    run_loop-Ends :
        (ctx : model.Ctx) (user : S) (n_prompt max_gen : ℕ)
        → n_prompt + max_gen ≤ eng.n_ctx
        → max_gen ≤ pos_part params.max_tokens
        → Ends user (run_loop b eng params chain cb env malloc ctx user n_prompt max_gen)
    unfolding run_loop
    run_loop-Ends ctx user n_prompt max_gen h k = elim (Option-cases (make_chain ctx chain)) [
      | inl e ↦ rw (e, run_loop) (inr (refl, refl, refl, inr refl))
      | inr (ctx', e) ↦
          let start : Gen (model.Ctx) S Bytes = record {
            ctx = ctx';
            user = user;
            watched = [];
            generated = 0;
          } in
          let watch = window_watch params.n_stop params.stop in
          let budget = generate-budget model watch cb env max_gen 0 start in
          rw (e, run_loop) (inl (refl, omega arith, omega arith))
    ]

    after_feed-Returns :
        (user : S) (n_prompt max_gen : ℕ) (r : Option (model.Ctx × Option FinishReason))
        → n_prompt + max_gen ≤ eng.n_ctx
        → max_gen ≤ pos_part params.max_tokens
        → IsFed r
        → Returns user (after_feed b eng params chain cb env malloc user n_prompt max_gen r)
    unfolding after_feed
    after_feed-Returns user n_prompt max_gen r h k (ctx, fed, e, inl clean) =
        rw (e, clean)
          (
            run_loop b eng params chain cb env malloc ctx user n_prompt max_gen,
            refl,
            run_loop-Ends ctx user n_prompt max_gen h k,
          )
    after_feed-Returns user n_prompt max_gen r h k (ctx, fed, e, inr (why, e', bad)) =
        rw (e, e')
          (
            failed b eng params chain cb env malloc ctx user n_prompt why,
            refl,
            inr (refl, refl, refl, bad),
          )

    failed-Returns :
        (ctx : model.Ctx) (user : S) (n : ℕ) (why : FinishReason)
        → IsFailure why
        → Returns user (some (failed b eng params chain cb env malloc ctx user n why))
    failed-Returns ctx user n why bad =
        (failed b eng params chain cb env malloc ctx user n why, refl, inr (refl, refl, refl, bad))

    choose-Returns :
        (user : S) (test : Bool) (x y : Option (Outcome (model.Ctx) S))
        → Returns user x
        → (test ≡ false → Returns user y)
        → Returns user (if test then x else y)
    choose-Returns user true x y hx hy = hx
    choose-Returns user false x y hx hy = hy refl

    run_prompt-Returns :
        (ctx : model.Ctx) (user : S) (tokens : List (model.Token))
        → 0 < eng.n_batch
        → Returns user (run_prompt b eng params chain cb env malloc ctx user tokens)
    unfolding run_prompt
    run_prompt-Returns ctx user tokens h =
        let n = length tokens in
        let budget = cap_tokens eng.n_ctx n params.max_tokens in
        choose-Returns user (not (ltb_ℤ (pos 0) budget)) _ _
          (failed-Returns ctx user n context_overflow (inl refl))
          (λ some_left.
            let fits =
              cap_tokens_fits eng.n_ctx n params.max_tokens
                (not-false (ltb_ℤ (pos 0) budget) some_left) in
            after_feed-Returns user n (pos_part budget) (feed b n eng.n_batch ctx tokens) fits.0
              fits.1 (feed-IsFed n eng.n_batch ctx tokens h (omega arith)))

    -- With a batch size above zero `inference_complete` returns. If it returns 0, the tokens of
    -- prompt and completion fit the context and the completion stays within `max_tokens`; if it
    -- returns -1, it has generated nothing and not called the callback, and the reason is
    -- `context_overflow` or `backend_error`.
    pub complete-Returns :
        (prompt : Bytes) (ctx : model.Ctx) (user : S)
        → 0 < eng.n_batch
        → Returns user (complete b eng params chain cb env malloc prompt ctx user)
    unfolding complete
    complete-Returns prompt ctx user h =
        let n = needed_tokens (count_tokens prompt) in
        let fail = failed-Returns (clear ctx) user 0 in
        choose-Returns user (n == 0) _ _ (fail backend_error (inr refl)) λ _.
          choose-Returns user (leb eng.n_ctx n) _ _ (fail context_overflow (inl refl)) λ _.
            choose-Returns user (not malloc) _ _ (fail backend_error (inr refl)) λ _.
              elim (Option-cases (tokenize prompt n)) [
                | inl e ↦ rw e (fail backend_error (inr refl))
                | inr (tokens, e) ↦ rw e (run_prompt-Returns (clear ctx) user tokens h)
              ]
