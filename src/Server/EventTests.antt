-- ===== src/Server/EventTests.antt =====
-- A request from its connection to its reply, over the events of the server.
use professor_ai.Prelude.{ℕ, ◌+◌, ◌≤◌, ◌≡◌, ◌≢◌, refl, Bool, true, none, some, List, [], ◌∷◌}
use professor_ai.Prelude.Bytes.{codes, streq}
use professor_ai.Float.Sample.{hundredths}
use professor_ai.Api.Cjson.{Cjson}
use professor_ai.Config.Parse.{config_defaults}
use professor_ai.Inference.Generate.{length_limit}
use professor_ai.Server.Stats
use professor_ai.Server.Route.{Mongoose, Request, route, dispatch, is_health, is_whatif}
use professor_ai.Server.Auth.{check_auth}
use professor_ai.Server.Acl.{allows}
use professor_ai.Server.Connections.{accept}
use professor_ai.Server.Submit.{submit_inference_job, hand_over, prepare, prepare_completion}
use professor_ai.Api.Parse.{completion_request_parse}
use professor_ai.Worker.Protocol.{
  is_busy, is_busy_state, submit_job, submit, accept_job, update, put_job, worker_step, work_at,
  uses_freed, at, is_timely, undefined, is_final, drain, start, new_job,
}
use professor_ai.Server.Events.{
  Hub, Event, Ending, Memory, http_msg, wakeup, accepts, closes, works, handle_all, boot,
  ev_handler, on_message, handle, settle, finds, attach, wake, hang_up, bump, put_data, is_orderly,
  is_idle, wake_timely, all_orderly,
}
use professor_ai.Server.EventLaws.{pending}
use professor_ai.Server.EventRun.{IsAlive, handle_all_answers}

-- Every item is the string "once".
abbrev always : Cjson ℕ
always = record {
  Item = Bool;
  parse_with_length = λ s. some true;
  get_object_item = λ i k. some true;
  string_value = λ i. some (codes "once");
  number_value = λ i. none;
  bool_value = λ i. none;
  array_items = λ i. none;
}

abbrev plain : Mongoose
plain = record { matches = streq; same = streq }

abbrev asks_once : Request
asks_once = record {
  uri = codes "/v1/completions";
  verb = codes "POST";
  authorization = none;
  body_len = 17;
}

abbrev memory : Memory
memory = record {
  job_memory = true;
  conn_memory = true;
  message_memory = true;
  document = none;
  error_json = none;
}

abbrev ending : Ending
ending = record {
  json = true;
  latency = 900;
  reason = length_limit;
  prompt_tokens = 12;
  completion_tokens = 30;
}

-- The first wake-up comes too early.
abbrev events : List Event
events =
    accepts 7 (codes "127.0.0.1")
    ∷ http_msg 7 asks_once memory []
    ∷ works true
    ∷ works true
    ∷ wakeup 7 ending
    ∷ works true
    ∷ works true
    ∷ works true
    ∷ works true
    ∷ wakeup 7 ending
    ∷ closes 7
    ∷ []

abbrev after : Hub
after =
    handle_all hundredths always plain (config_defaults hundredths) events (boot (some Stats.init))

events_run : (after.answered 7 ≡ 1) × ((after.sys.jobs 0).frees ≡ 1) × (after.dropped 7 ≡ 0)
unfolding handle_all boot ev_handler on_message handle settle finds attach wake hang_up bump
    put_data accept allows route dispatch is_health is_whatif check_auth submit_inference_job
    hand_over prepare prepare_completion completion_request_parse config_defaults is_busy
    is_busy_state submit_job submit accept_job update put_job worker_step uses_freed work_at
    is_final drain start new_job streq
events_run = (refl, refl, refl)

events_orderly :
    all_orderly hundredths always plain (config_defaults hundredths) events (boot (some Stats.init))
    ≡ true
unfolding all_orderly is_orderly is_idle wake_timely is_timely at uses_freed boot ev_handler
    on_message handle settle finds attach wake hang_up bump put_data accept allows route dispatch
    is_health is_whatif check_auth submit_inference_job hand_over prepare prepare_completion
    completion_request_parse config_defaults is_busy is_busy_state submit_job submit accept_job
    update put_job worker_step work_at is_final drain start new_job streq
events_orderly = refl

handle_all_answers_example :
    (after.asked 7 ≡ after.answered 7 + after.dropped 7 + pending (after.fn_data 7))
    × ((after.sys.jobs 0).frees ≤ 1)
    × IsAlive after.sys (after.fn_data 7)
    × (after.sys.place ≢ undefined)
handle_all_answers_example =
    handle_all_answers hundredths always plain (config_defaults hundredths) (some Stats.init) events
      7 0 events_orderly
