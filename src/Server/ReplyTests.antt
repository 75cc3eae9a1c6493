-- ===== src/Server/ReplyTests.antt =====
-- A job from its prompt to its client, over a toy of llama.cpp and of JSON.
use professor_ai.Prelude.{ℕ, ◌≡◌, refl, ◌+◌, ap, true, false, none, some, [], ◌∷◌, arith, length}
use professor_ai.Prelude.Int.{pos, negsuc, ◌+ℤ◌, ◌-ℤ◌}
use professor_ai.Prelude.Bytes.{codes}
use professor_ai.Api.Serialize.{job_to_json, completion_response_to_json, print_root}
use professor_ai.Api.Toy.{Tree, nil, builder, reader, agrees}
use professor_ai.Inference.Generate.{length_limit, generate, round}
use professor_ai.Inference.Pieces.{HasShortPieces}
use professor_ai.Inference.Window.{push_piece, any_stop}
use professor_ai.Inference.Complete.{
  Outcome, complete, run_prompt, run_loop, feed, after_feed, needed_tokens, cap_tokens,
}
use professor_ai.Inference.Run.{Rendering}
use professor_ai.Inference.Toy.{counting, quiet, bytewise, engine, params}
use professor_ai.Worker.Accum.{accum_token_cb, put_token, new_cap, fresh}
use professor_ai.Worker.Run.{Flags, Collecting, ask_completion, collect, infer, run_job, job_start}
use professor_ai.Server.Reply.{IsServed, reply_reads, result_of}

counting-HasShortPieces : HasShortPieces 255 counting
counting-HasShortPieces t p e = let same : (97 + t) ∷ [] ≡ p = cc in omega (arith, ap length same)

abbrev no_template : Rendering
no_template = record {
  use_chatml_fallback = true;
  malloc_messages = true;
  malloc_text = true;
  template = record { size = λ ms. negsuc 0; render = λ ms. (negsuc 0, []) };
}

abbrev undisturbed : ℕ → Flags
undisturbed i = record { cancel = false; shutdown = false; realloc = true }

abbrev finished : Outcome ℕ Collecting
finished = record {
  ok = true;
  prompt_tokens = 4;
  completion_tokens = 4;
  reason = length_limit;
  ctx = 4;
  user = record { response = record { buf = codes "abcd"; len = 4; cap = 8192 }; calls = 4 };
}

job_runs :
    run_job bytewise engine params [] quiet true no_template undisturbed true
      (ask_completion (codes "once"))
      5
    ≡ some finished
unfolding run_job infer complete run_prompt run_loop feed after_feed generate round collect
    accum_token_cb put_token new_cap fresh push_piece any_stop needed_tokens cap_tokens ◌+ℤ◌ ◌-ℤ◌
    job_start
job_runs = refl

abbrev text : Tree
text =
    elim (job_to_json builder true false
      (result_of (codes "cmpl-01") (codes "local-model") finished) (pos 1700000000)) [
        | none ↦ nil
        | some t ↦ t
      ]

reply_reads_example :
    IsServed bytewise engine params [] quiet true no_template counting-HasShortPieces undisturbed
      builder reader agrees
      (ask_completion (codes "once"))
      5
      finished
      (codes "cmpl-01")
      (codes "local-model")
      (pos 1700000000)
      text
unfolding job_to_json completion_response_to_json print_root result_of
reply_reads_example =
    reply_reads bytewise engine params [] quiet true no_template counting-HasShortPieces undisturbed
      builder reader agrees true (ask_completion (codes "once")) 5 finished (codes "cmpl-01")
      (codes "local-model") (pos 1700000000) text (omega arith) (omega arith) (omega arith)
      (omega arith) job_runs refl refl
