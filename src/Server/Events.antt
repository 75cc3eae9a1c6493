-- ===== src/Server/Events.antt =====
-- src/server.c: `ev_handler` as a whole, with the worker thread's steps in between. That mongoose hands a
-- connection's next request to the handler once the one before is answered is `is_orderly`'s.
use professor_ai.Prelude.{
  ℕ, ◌+◌, Bool, true, false, not, ◌&&◌, Option, none, some, List, [], ◌∷◌, if◌then◌else◌, ◌==◌,
}
use professor_ai.Prelude.Bytes.{Bytes}
use professor_ai.Float.{Floats}
use professor_ai.Api.Cjson.{Cjson}
use professor_ai.Config.{Config}
use professor_ai.Inference.Generate.{FinishReason}
use professor_ai.Worker.Protocol.{
  Sys, update, is_busy, submit_job, worker_step, is_final, drain, start, drains, is_timely,
}
use professor_ai.Worker.Protocol
use professor_ai.Server.Stats.{Stats, count_error}
use professor_ai.Server.Connections.{Ctx, on_stats, accept}
use professor_ai.Server.Connections
use professor_ai.Server.Route.{
  Request, Mongoose, Action, whatif, health, stats, models, submit, fails, route,
}
use professor_ai.Server.Submit.{Finds, Submitted, attached, submit_inference_job}
use professor_ai.Server.Submit
use professor_ai.Server.Finish.{Output, finish_reply, finish_stream}
use professor_ai.Server.Handlers.{handle_health, handle_stats, handle_models}

-- The server with its worker. `fn_data` leads from a connection to its job; `next_job` numbers the
-- jobs. How often a connection was handed on a request, answered, and closed with its job pending.
pub record Hub : Type 0 where
  pub ctx : Ctx
  pub sys : Sys
  pub fn_data : ℕ → Option ℕ
  pub next_job : ℕ
  pub asked : ℕ → ℕ
  pub answered : ℕ → ℕ
  pub dropped : ℕ → ℕ

-- What a handler finds: the allocations of `submit_inference_job`, and the documents that the
-- serializers return.
pub record Memory : Type 0 where
  pub job_memory : Bool
  pub conn_memory : Bool
  pub message_memory : Bool
  pub document : Option Bytes
  pub error_json : Option Bytes

-- The end of a job: whether its reply is serialized, the latency, and what the job has put out.
pub record Ending : Type 0 where
  pub json : Bool
  pub latency : ℕ
  pub reason : FinishReason
  pub prompt_tokens : ℕ
  pub completion_tokens : ℕ

-- An event of a connection, or a step of the worker thread; `ok` says whether an inference returns 0.
pub data Event : Type 0 where
  http_msg : ℕ → Request → Memory → Bytes → Event
  wakeup : ℕ → Ending → Event
  accepts : ℕ → Bytes → Event
  closes : ℕ → Event
  works : Bool → Event

unfoldable pub bump : ℕ → (ℕ → ℕ) → ℕ → ℕ
bump c f k = if k == c then f k + 1 else f k

unfoldable pub put_data : ℕ → Option ℕ → (ℕ → Option ℕ) → ℕ → Option ℕ
put_data c o f k = if k == c then o else f k

abbrev pub with_stats : Option Stats → Hub → Hub
with_stats st d = record d { ctx = record d.ctx { stats = st } }

abbrev pub count_with : (Stats → Stats) → Hub → Hub
count_with f d = with_stats (on_stats f d.ctx.stats) d

abbrev pub answer : ℕ → Hub → Hub
answer c d = record d { answered = bump c d.answered }

-- The statistics of a job that has ended.
unfoldable pub count_ending : Bool → Output → Ending → Stats → Stats
count_ending stream out e st =
    if stream then finish_stream e.latency out st else elim (finish_reply e.json e.latency out st) [
      | none ↦ st
      | some (status, logged, st') ↦ st'
    ]

-- MG_EV_WAKEUP: the job of the connection, if it has one.
unfoldable pub wake : Option ℕ → ℕ → Ending → Hub → Hub
unfolding put_data bump
wake none c e d = d
wake (some j) c e d =
    let job = d.sys.jobs j in
    let out : Output = record {
      state = job.state;
      reason = e.reason;
      prompt_tokens = e.prompt_tokens;
      completion_tokens = e.completion_tokens;
    } in
    let told = count_with (count_ending job.stream out e) d in
    if is_final job
    then answer c (record told { sys = drain j d.sys; fn_data = put_data c none d.fn_data })
    else d

-- MG_EV_CLOSE, what it does to the connection's job.
unfoldable pub hang_up : Option ℕ → ℕ → Hub → Hub
hang_up none c d = d
hang_up (some j) c d = record d {
  sys = Protocol.close j d.sys;
  fn_data = put_data c none d.fn_data;
  dropped = bump c d.dropped;
}

-- A new job with its kind goes to the worker, and to its connection.
unfoldable pub attach : ℕ → Bool → Hub → Hub
attach c stream d = record d {
  sys = submit_job d.next_job (update d.next_job (λ job. record job { stream = stream }) d.sys);
  fn_data = put_data c (some d.next_job) d.fn_data;
  next_job = d.next_job + 1;
}

-- The server as it starts, with its statistics where it keeps any.
unfoldable pub boot : Option Stats → Hub
boot st = record {
  ctx = record { active = 0; stats = st };
  sys = start (λ j. false);
  fn_data = λ c. none;
  next_job = 0;
  asked = λ c. 0;
  answered = λ c. 0;
  dropped = λ c. 0;
}

-- The connection's job, if it has one, is not one that the reply would free while the worker is at it.
unfoldable pub wake_timely : Option ℕ → Sys → Bool
unfolding is_timely
wake_timely none s = true
wake_timely (some j) s = is_timely (drains j) s

unfoldable pub is_idle : Option ℕ → Bool
is_idle none = true
is_idle (some j) = false

-- mongoose hands on a request only where none of the connection is pending, and a wake-up does not come
-- while the worker is still at a job that has ended.
unfoldable pub is_orderly : Event → Hub → Bool
unfolding wake_timely is_idle
is_orderly (http_msg c r m body) d = is_idle (d.fn_data c)
is_orderly (wakeup c e) d = wake_timely (d.fn_data c) d.sys
is_orderly _ d = true

module _ (fl : Floats) (cj : Cjson fl.D) (mg : Mongoose) (cfg : Config fl.F) where
  open fl use {F}

  -- The end of `submit_inference_job`.
  unfoldable pub settle : ℕ → Hub → Submitted F × Option Stats → Hub
  settle c d (Submit.fails n, st) = answer c (with_stats st d)
  settle c d (attached p, st) = attach c p.stream (with_stats st d)

  -- Nothing comes between the two looks at the worker, so that it takes the job if it was not busy.
  unfoldable pub finds : Memory → Hub → Finds
  finds m d = record {
    busy = is_busy d.sys;
    job_memory = m.job_memory;
    conn_memory = m.conn_memory;
    message_memory = m.message_memory;
    worker_takes = not (is_busy d.sys);
  }

  unfoldable pub handle : Action → ℕ → Memory → Bytes → Hub → Hub
  handle whatif c m body d = answer c d
  handle health c m body d = answer c (count_with (λ st. (handle_health [] st).0) d)
  handle stats c m body d =
      answer c (count_with (λ st. (handle_stats m.document m.error_json st).0) d)
  handle models c m body d =
      answer c (count_with (λ st. (handle_models m.document m.error_json st).0) d)
  handle (submit t) c m body d =
      settle c d (submit_inference_job fl cj t cfg (finds m d) body d.ctx.stats)
  handle (fails n) c m body d = answer c (count_with (count_error n) d)

  -- MG_EV_HTTP_MSG
  unfoldable pub on_message : ℕ → Request → Memory → Bytes → Hub → Hub
  on_message c r m body d =
      handle (route mg cfg.api_key r) c m body (record d { asked = bump c d.asked })

  unfoldable pub ev_handler : Event → Hub → Hub
  ev_handler (http_msg c r m body) d = on_message c r m body d
  ev_handler (wakeup c e) d = wake (d.fn_data c) c e d
  ev_handler (accepts c ip) d = record d { ctx = (accept cfg.acl d.ctx ip).0 }
  ev_handler (closes c) d = hang_up (d.fn_data c) c (record d { ctx = Connections.close d.ctx })
  ev_handler (works ok) d = record d { sys = worker_step ok d.sys }

  unfoldable pub handle_all : List Event → Hub → Hub
  handle_all [] d = d
  handle_all (e ∷ es) d = handle_all es (ev_handler e d)

  unfoldable pub all_orderly : List Event → Hub → Bool
  unfolding is_orderly
  all_orderly [] d = true
  all_orderly (e ∷ es) d = is_orderly e d && all_orderly es (ev_handler e d)
