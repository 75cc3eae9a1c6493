-- ===== src/Inference/Reply.antt =====
-- src/inference.c: what a call of `inference_complete` hands to its callback.
use professor_ai.Prelude.{
  ℕ, ◌+◌, ◌≤◌, ◌≡◌, ◌≢◌, refl, ◌⊎◌, inl, inr, Bool, true, false, not, Option, none, some, List, [],
  ◌++◌, if◌then◌else◌, leb, ◌==◌, length, take, arith, Option-cases,
}
use mathlib.Core.Path.{subst}
use professor_ai.Prelude.Int.{pos, ltb_ℤ, pos_part}
use professor_ai.Prelude.Bytes.{Bytes}
use professor_ai.Inference.{SampleParams}
use professor_ai.Inference.Generate.{
  FinishReason, length_limit, stop, abort, context_overflow, backend_error, Signals, Gen,
  window_watch,
}
use professor_ai.Inference.Pieces.{Collects, HasShortPieces, deal, joined_pieces}
use professor_ai.Inference.Delivery.{generate-IsDelivered}
use professor_ai.Inference.Complete.{
  Sampler, Backend, Engine, Outcome, feed, run_loop, run_prompt, complete, failed, after_feed,
  cap_tokens, needed_tokens,
}

module _ {F : Type 0} (b : Backend F) (eng : Engine) (params : SampleParams F)
    (chain : List (Sampler F)) where
  open b use {model, clear, count_tokens, tokenize, make_chain}

  -- Where the loop starts once the prompt of `n_prompt` tokens is decoded, and its budget.
  abbrev with_budget : ℕ → Option (model.Ctx) → Option (model.Ctx × ℕ)
  with_budget n_prompt none = none
  with_budget n_prompt (some ctx) =
      some (ctx, pos_part (cap_tokens eng.n_ctx n_prompt params.max_tokens))

  abbrev after_prompt : ℕ → Option (model.Ctx × Option FinishReason) → Option (model.Ctx × ℕ)
  after_prompt n_prompt none = none
  after_prompt n_prompt (some (ctx, some why)) = none
  after_prompt n_prompt (some (ctx, none)) = with_budget n_prompt (make_chain ctx chain)

  abbrev of_tokens : model.Ctx → Option (List (model.Token)) → Option (model.Ctx × ℕ)
  of_tokens ctx none = none
  of_tokens ctx (some tokens) =
      after_prompt (length tokens) (feed b (length tokens) eng.n_batch ctx tokens)

  -- The context in which the model starts to answer a prompt, and how many tokens it may: what
  -- llama.cpp makes of the prompt, whatever becomes of the answer.
  unfoldable pub opening : Bytes → model.Ctx → Option (model.Ctx × ℕ)
  opening prompt ctx0 =
      of_tokens (clear ctx0) (tokenize prompt (needed_tokens (count_tokens prompt)))

  module _ {S : Type 0} (cb : S → Bytes → S × Bool) {limit : ℕ} (col : Collects limit cb)
      (short : HasShortPieces limit model) (env : ℕ → Signals) (malloc : Bool) where
    open col use {text, Holds}

    -- A call that returns 0 has collected the first `k` pieces of the answer that the model gives
    -- to the prompt, and counted as many tokens, or one more where it ended on a stop sequence or
    -- at the callback's wish; and where it ended for length it has collected them all.
    abbrev pub IsReply : S → Outcome (model.Ctx) S → model.Ctx → ℕ → Type 0
    IsReply user out ctx n =
        (k : ℕ) × (k ≤ n)
        × (text out.user ≡ text user ++ joined_pieces (take k (deal model n ctx)))
        × ((out.completion_tokens ≡ k)
            ⊎ (out.completion_tokens ≡ k + 1) × ((out.reason ≡ stop) ⊎ (out.reason ≡ abort)))
        × ((k ≡ n) ⊎ (out.reason ≢ length_limit))
        × Holds out.user

    abbrev Replies : S → Option (model.Ctx × ℕ) → Outcome (model.Ctx) S → Type 0
    Replies user start out =
        out.ok ≡ true
        → (ctx : model.Ctx) × (n : ℕ) × (start ≡ some (ctx, n)) × IsReply user out ctx n

    abbrev RepliesIf : S → Option (model.Ctx × ℕ) → Option (Outcome (model.Ctx) S) → Type 0
    RepliesIf user start r = (out : Outcome (model.Ctx) S) → r ≡ some out → Replies user start out

    from_zero :
        {n k : ℕ} {P : Type 0} → (n ≡ 0 + k) ⊎ (n ≡ 0 + k + 1) × P → (n ≡ k) ⊎ (n ≡ k + 1) × P
    from_zero (inl a) = inl (omega (arith, a))
    from_zero (inr (a, w)) = inr (omega (arith, a), w)

    run_loop-Replies :
        (ctx : model.Ctx) (user : S) (n_prompt : ℕ)
        → Holds user
        → Replies user (with_budget n_prompt (make_chain ctx chain)) (
            run_loop b eng params chain cb env malloc ctx user n_prompt
              (pos_part (cap_tokens eng.n_ctx n_prompt params.max_tokens)))
    unfolding run_loop
    run_loop-Replies ctx user n_prompt held = elim (Option-cases (make_chain ctx chain)) [
      | inl e ↦ rw (e, run_loop) (λ ok. cc)
      | inr (ctx', e) ↦
          let start : Gen (model.Ctx) S Bytes = record {
            ctx = ctx';
            user = user;
            watched = [];
            generated = 0;
          } in
          let n = pos_part (cap_tokens eng.n_ctx n_prompt params.max_tokens) in
          let watch = window_watch params.n_stop params.stop in
          let (k, below, grown, count, limit, kept) =
            generate-IsDelivered model watch cb col short env n 0 start held in
          rw (e, run_loop) (λ ok. (ctx', n, refl, (k, below, grown, from_zero count, limit, kept)))
    ]

    some-RepliesIf :
        (user : S) (start : Option (model.Ctx × ℕ)) (got : Outcome (model.Ctx) S)
        → Replies user start got
        → RepliesIf user start (some got)
    some-RepliesIf user start got h out e =
        let same : got ≡ out = cc in subst (λ o. Replies user start o) same h

    -- A call that ends as failed replies with nothing.
    failed-RepliesIf :
        (start : Option (model.Ctx × ℕ)) (ctx : model.Ctx) (user : S) (n : ℕ) (why : FinishReason)
        → RepliesIf user start (some (failed b eng params chain cb env malloc ctx user n why))
    failed-RepliesIf start ctx user n why =
        some-RepliesIf user start (failed b eng params chain cb env malloc ctx user n why) λ ok. cc

    after_feed-RepliesIf :
        (user : S) (n_prompt : ℕ) (fed : Option (model.Ctx × Option FinishReason))
        → Holds user
        → RepliesIf user (after_prompt n_prompt fed) (
            after_feed b eng params chain cb env malloc user n_prompt
              (pos_part (cap_tokens eng.n_ctx n_prompt params.max_tokens))
              fed)
    unfolding after_feed
    after_feed-RepliesIf user n_prompt none held = λ out e ok. cc
    after_feed-RepliesIf user n_prompt (some (ctx, some why)) held =
        failed-RepliesIf none ctx user n_prompt why
    after_feed-RepliesIf user n_prompt (some (ctx, none)) held =
        some-RepliesIf user (with_budget n_prompt (make_chain ctx chain)) _
          (run_loop-Replies ctx user n_prompt held)

    choose-RepliesIf :
        (user : S) (start : Option (model.Ctx × ℕ)) (test : Bool)
        (x y : Option (Outcome (model.Ctx) S))
        → RepliesIf user start x
        → RepliesIf user start y
        → RepliesIf user start (if test then x else y)
    choose-RepliesIf user start true x y hx hy = hx
    choose-RepliesIf user start false x y hx hy = hy

    run_prompt-RepliesIf :
        (ctx : model.Ctx) (user : S) (tokens : List (model.Token))
        → Holds user
        → RepliesIf user
            (of_tokens ctx (some tokens))
            (run_prompt b eng params chain cb env malloc ctx user tokens)
    unfolding run_prompt
    run_prompt-RepliesIf ctx user tokens held =
        let n = length tokens in
        let start = of_tokens ctx (some tokens) in
        choose-RepliesIf user start (not (ltb_ℤ (pos 0) (cap_tokens eng.n_ctx n params.max_tokens)))
          _ _ (failed-RepliesIf start ctx user n context_overflow)
          (after_feed-RepliesIf user n (feed b n eng.n_batch ctx tokens) held)

    -- A call of `inference_complete` that returns 0 has handed its callback the answer that the
    -- model gives to the prompt: the first `k` pieces of it, whole, once each and in order. It
    -- counts `k` completion tokens, or `k + 1` where it ended on a stop sequence or because the
    -- callback refused the last piece; and where it ended for length, the pieces are all that its
    -- budget allows.
    pub complete-IsReply :
        (prompt : Bytes) (ctx0 : model.Ctx) (user : S) (out : Outcome (model.Ctx) S)
        → Holds user
        → complete b eng params chain cb env malloc prompt ctx0 user ≡ some out
        → out.ok ≡ true
        → (ctx : model.Ctx) × (n : ℕ) × (opening prompt ctx0 ≡ some (ctx, n))
          × IsReply user out ctx n
    unfolding complete opening
    complete-IsReply prompt ctx0 user out held =
        let n = needed_tokens (count_tokens prompt) in
        let start = opening prompt ctx0 in
        let ctx = clear ctx0 in
        let fail = failed-RepliesIf start ctx user 0 in
        choose-RepliesIf user start (n == 0) _ _ (fail backend_error)
          (choose-RepliesIf user start (leb eng.n_ctx n) _ _ (fail context_overflow) (
            choose-RepliesIf user start (not malloc) _ _ (fail backend_error)
              (elim (Option-cases (tokenize prompt n)) [
                | inl e ↦ rw e (failed-RepliesIf none ctx user 0 backend_error)
                | inr (tokens, e) ↦ rw e (run_prompt-RepliesIf ctx user tokens held)
              ])))
          out
