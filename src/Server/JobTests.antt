-- ===== src/Server/JobTests.antt =====
-- Runs of the submission and of the end of a job, and their theorems at concrete requests.
use professor_ai.Prelude.{ℕ, ◌≡◌, refl, Bool, true, false, Option, none, some, [], ◌∷◌, arith}
use professor_ai.Prelude.Int.{pos}
use professor_ai.Prelude.Bytes.{codes}
use professor_ai.Float.Sample.{hundredths}
use professor_ai.Api.Cjson.{Cjson}
use professor_ai.Api.Parse.{completion_request_parse}
use professor_ai.Config.{LimitsOk}
use professor_ai.Config.Parse.{config_defaults}
use professor_ai.Inference.Generate.{stop, context_overflow}
use professor_ai.Inference.Params.{
  resolve_params_completion, given_or, max_tokens_of, copy_stops, is_default,
}
use professor_ai.Server.Stats
use professor_ai.Server.Stats.{req_total, err_total, count_error}
use professor_ai.Server.Route.{completion}
use professor_ai.Server.Submit.{
  Prepared, Finds, attached, prepare, prepare_completion, hand_over, submit_inference_job,
  IsBounded, submit_inference_job-IsBounded,
}
use professor_ai.Server.Finish.{Output}
use professor_ai.Worker.Protocol.{done, error}

-- Every item is the string "once".
abbrev once : Cjson ℕ
once = record {
  Item = Bool;
  parse_with_length = λ s. some true;
  get_object_item = λ i k. some true;
  string_value = λ i. some (codes "once");
  number_value = λ i. none;
  bool_value = λ i. none;
  array_items = λ i. none;
}

abbrev ready : Finds
ready = record {
  busy = false;
  job_memory = true;
  conn_memory = true;
  message_memory = true;
  worker_takes = true;
}

abbrev prepared : Prepared (Option ℕ)
prepared = record {
  stream = false;
  params = record {
    temperature = some 70;
    top_p = some 90;
    top_k = pos 40;
    repeat_penalty = some 110;
    frequency_penalty = some 0;
    presence_penalty = some 0;
    max_tokens = pos 512;
    max_inference_seconds = pos 300;
    stop = [] ∷ [] ∷ [] ∷ [] ∷ [];
    n_stop = 0;
  };
  stop = [] ∷ [] ∷ [] ∷ [] ∷ [];
  stop_count = 0;
}

submit_runs :
    (submit_inference_job hundredths once completion (config_defaults hundredths) ready [] none).0
    ≡ attached prepared
unfolding submit_inference_job hand_over prepare prepare_completion completion_request_parse
    resolve_params_completion config_defaults given_or max_tokens_of copy_stops is_default
submit_runs = refl

defaults-LimitsOk : LimitsOk (config_defaults hundredths)
unfolding config_defaults
defaults-LimitsOk = record { tokens_pos = omega arith; tokens_le = omega arith }

submit_inference_job-IsBounded_example :
    IsBounded hundredths once (config_defaults hundredths) prepared
submit_inference_job-IsBounded_example =
    submit_inference_job-IsBounded hundredths once completion (config_defaults hundredths) ready []
      none prepared defaults-LimitsOk submit_runs

abbrev answer : Output
answer = record { state = done; reason = stop; prompt_tokens = 12; completion_tokens = 30 }

abbrev too_long : Output
too_long = record {
  state = error;
  reason = context_overflow;
  prompt_tokens = 0;
  completion_tokens = 0;
}
