-- ===== src/Inference/Tests.antt =====
-- Runs of the inference functions over a toy backend, and their theorems at concrete inputs.
use professor_ai.Prelude.{
  ℕ, ◌+◌, ◌≤◌, ◌≡◌, refl, ap, inl, inr, true, false, Option, none, some, List, [], ◌∷◌, ◌==◌,
  length, arith,
}
use professor_ai.Prelude.Int.{pos}
use professor_ai.Prelude.Bytes.{Bytes, codes, streq}
use professor_ai.Float.Sample.{hundredths}
use professor_ai.Api.{ChatMessage, ChatRequest}
use professor_ai.Api.WellFormed.{IsWellFormed, AllFit}
use professor_ai.Config.{Config}
use professor_ai.Inference.Params.{resolve_params}
use professor_ai.Inference.ParamBounds.{IsResolved, resolve_params-IsResolved}
use professor_ai.Inference.Window.{push_piece, any_stop}
use professor_ai.Inference.Generate.{stop, Signals, Gen, window_watch, round, generate}
use professor_ai.Inference.GenerateLaws.{
  text_watch, windowed, generate-windowed, generate_cancelled,
}
use professor_ai.Inference.Pieces.{Collects, HasShortPieces}
use professor_ai.Inference.Delivery.{IsDelivered, generate-IsDelivered}
use professor_ai.Inference.Toy.{counting, collect, quiet}
use professor_ai.Inference.Chat.{
  Template, messages_size, build_chatml_prompt, render_prompt, render_template,
}
use professor_ai.Inference.ChatLaws.{chatml, build_chatml_prompt-whole, render_prompt_checked}

abbrev cancelled_from_two : ℕ → Signals
cancelled_from_two i = record { shutdown = false; cancel = i == 2; timed_out = false }

abbrev stops : List Bytes
stops = codes "cd" ∷ [] ∷ [] ∷ [] ∷ []

stops-AllFit : AllFit stops
stops-AllFit = omega arith

abbrev start : Gen ℕ Bytes Bytes
start = record { ctx = 0; user = []; watched = []; generated = 0 }

-- The stop sequence ends the text before its last piece goes to the callback.
generate_runs :
    let (g, why) = generate counting (window_watch 1 stops) collect quiet 8 0 start in
    (g.user ≡ codes "abc") × (g.generated ≡ 4) × (why ≡ stop)
unfolding generate round streq push_piece any_stop
generate_runs = (refl, refl, refl)

generate-windowed_example :
    ((generate counting (window_watch 1 stops) collect quiet 8 0 (windowed start)).0
      ≡ windowed (generate counting (text_watch 1 stops) collect quiet 8 0 start).0)
    × ((generate counting (window_watch 1 stops) collect quiet 8 0 (windowed start)).1
        ≡ (generate counting (text_watch 1 stops) collect quiet 8 0 start).1)
generate-windowed_example = generate-windowed counting 1 stops stops-AllFit collect quiet 8 0 start

generate_cancelled_example :
    (generate counting (window_watch 1 stops) collect cancelled_from_two 8 0 start).0.generated ≤ 2
generate_cancelled_example =
    generate_cancelled counting (window_watch 1 stops) collect cancelled_from_two 8 0 2 start
      (omega arith) (omega arith) refl

abbrev cfg : Config (Option ℕ)
cfg = record {
  model_path = codes "m.gguf";
  model_alias = codes "local-model";
  n_ctx = pos 4096;
  n_gpu_layers = pos 99;
  n_batch = pos 2048;
  n_threads = pos 0;
  temperature = some 70;
  top_p = some 90;
  top_k = pos 40;
  repeat_penalty = some 110;
  max_tokens = pos 512;
  listen_addr = codes "127.0.0.1:8080";
  api_key = [];
  acl = [];
  max_inference_seconds = pos 300;
  stats_interval = pos 60;
  daemonize = pos 0;
  pid_file = [];
  log_level = pos 2;
  log_file = [];
  config_file = [];
}

abbrev hello : List ChatMessage
hello = record { role = codes "user"; content = codes "hi" } ∷ []

abbrev request : ChatRequest (Option ℕ)
request = record {
  model = [];
  messages = some hello;
  message_count = 1;
  temperature = some 900;
  top_p = none;
  max_tokens = pos 9000;
  frequency_penalty = none;
  presence_penalty = some 5;
  repeat_penalty = none;
  stop = codes "END" ∷ [] ∷ [] ∷ [] ∷ [];
  stop_count = 1;
  stream = false;
}

request-IsWellFormed : IsWellFormed request
request-IsWellFormed = record {
  model_fits = omega arith;
  list = hello;
  is_list = refl;
  counted = refl;
  not_empty = omega arith;
  not_many = omega arith;
  good = (record { role_known = inr (inl refl); content_fits = omega arith }, tt);
  stop_slots = refl;
  stops_fit = omega arith;
  stop_counted = omega arith;
}

resolve_params-IsResolved_example :
    IsResolved hundredths cfg request (resolve_params hundredths cfg request)
resolve_params-IsResolved_example =
    resolve_params-IsResolved hundredths cfg request
      (record { tokens_pos = omega arith; tokens_le = omega arith }) request-IsWellFormed

build_chatml_prompt-whole_example :
    build_chatml_prompt true hello ≡ some (chatml hello, pos (length (chatml hello)))
unfolding messages_size
build_chatml_prompt-whole_example = build_chatml_prompt-whole hello (omega arith)

abbrev short_template : Template
short_template = record { size = λ ms. pos 2; render = λ ms. (pos 2, codes "hi") }

render_prompt_checked_example : length {A = ℕ} (codes "hi") ≤ 262144
unfolding messages_size render_prompt render_template
render_prompt_checked_example =
    render_prompt_checked false true true short_template hello (codes "hi") (omega arith)
      (inr (omega arith)) refl

collect_takes : (s p : Bytes) → (collect s p).1 ≡ false → (collect s p).0 ≡ s
collect_takes s p left = cc

-- The callback of the toy keeps all that it is given.
abbrev keeps_all : Collects 255 collect
keeps_all = record {
  text = λ s. s;
  Holds = λ s. Unit {0};
  keeps = λ s p short held. tt;
  appends = λ s p short held taken. refl;
  refuses = λ s p short held left. collect_takes s p left;
}

short_pieces : HasShortPieces 255 counting
short_pieces t p e = let same : (97 + t) ∷ [] ≡ p = cc in omega (arith, ap length same)

generate-IsDelivered_example :
    IsDelivered counting
      (window_watch 1 stops)
      collect
      keeps_all
      short_pieces
      quiet
      8
      start
      (generate counting (window_watch 1 stops) collect quiet 8 0 start)
generate-IsDelivered_example =
    generate-IsDelivered counting (window_watch 1 stops) collect keeps_all short_pieces quiet 8 0
      start tt
