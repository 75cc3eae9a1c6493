-- ===== src/Server/Submit.antt =====
-- src/server.c: `submit_inference_job`. `worker_submit` and the life of the job are in Worker.Protocol.
use professor_ai.Prelude.{
  ℕ, ◌+◌, ◌≤◌, ◌≡◌, refl, ap, ◌⊎◌, inl, inr, Bool, not, ◌||◌, Option, none, some, List,
  if◌then◌else◌, arith, Bool-cases,
}
use professor_ai.Prelude.Bytes.{Bytes}
use professor_ai.Float.{Floats}
use professor_ai.Api.{ChatRequest, CompletionRequest, stop_max}
use professor_ai.Api.Cjson.{Cjson}
use professor_ai.Api.Parse.{chat_request_parse, completion_request_parse}
use professor_ai.Api.WellFormed.{IsWellFormed, IsWellFormedCompletion}
use professor_ai.Api.ParseBounds.{chat_request_parse-IsWellFormed}
use professor_ai.Api.CompletionBounds.{completion_request_parse-IsWellFormed}
use professor_ai.Config.{Config, LimitsOk}
use professor_ai.Inference.{SampleParams}
use professor_ai.Inference.Params.{copy_stops, resolve_params, resolve_params_completion}
use professor_ai.Inference.ParamBounds.{IsBudget, max_tokens_of-IsBudget}
use professor_ai.Server.Stats.{Stats, count_error, req_total, err_total}
use professor_ai.Server.Connections.{on_stats}
use professor_ai.Server.Route.{JobType, chat, completion}

-- The fields of a job that the request decides.
pub record Prepared (F : Type 0) : Type 0 where
  pub stream : Bool
  pub params : SampleParams F
  pub stop : List Bytes
  pub stop_count : ℕ

-- What the handler finds: `worker_is_busy`, the three allocations, and the result of `worker_submit`.
pub record Finds : Type 0 where
  pub busy : Bool
  pub job_memory : Bool
  pub conn_memory : Bool
  pub message_memory : Bool
  pub worker_takes : Bool

-- An answer by `send_error`, or a job at the worker, stored with its connection: for a stream the
-- headers are sent.
pub data Submitted (F : Type 0) : Type 0 where
  fails : ℕ → Submitted F
  attached : Prepared F → Submitted F

unfoldable pub count_request : JobType → Stats → Stats
count_request chat st = record st { req_chat = st.req_chat + 1 }
count_request completion st = record st { req_completion = st.req_completion + 1 }

-- `send_error`, as far as the daemon's state goes.
unfoldable pub send_error {ℓ} : {A : Type ℓ} → (ℕ → A) → ℕ → Option Stats → A × Option Stats
send_error answer status st = (answer status, on_stats (count_error status) st)

module _ (fl : Floats) (cj : Cjson fl.D) where
  open fl use {F}

  unfoldable pub prepare_chat : Config F → ChatRequest F → Prepared F
  prepare_chat cfg req = record {
    stream = req.stream;
    params = resolve_params fl cfg req;
    stop = copy_stops stop_max req.stop_count req.stop;
    stop_count = req.stop_count;
  }

  unfoldable pub prepare_completion : Config F → CompletionRequest F → Prepared F
  prepare_completion cfg req = record {
    stream = req.stream;
    params = resolve_params_completion fl cfg req;
    stop = copy_stops stop_max req.stop_count req.stop;
    stop_count = req.stop_count;
  }

  -- The two branches that parse; `none` is a `parse_rc` that is not 0.
  unfoldable pub prepare : JobType → Config F → Bool → Bytes → Option (Prepared F)
  prepare chat cfg memory body =
      let (req, ok) = chat_request_parse fl cj memory body in
      if ok then some (prepare_chat cfg req) else none
  prepare completion cfg memory body =
      let (req, ok) = completion_request_parse fl cj body in
      if ok then some (prepare_completion cfg req) else none

  -- What follows the parsing.
  unfoldable pub hand_over : Bool → Option (Prepared F) → Option Stats → Submitted F × Option Stats
  hand_over takes none st = send_error fails 400 st
  hand_over takes (some p) st = if takes then (attached p, st) else send_error fails 503 st

  unfoldable pub submit_inference_job :
      JobType → Config F → Finds → Bytes → Option Stats → Submitted F × Option Stats
  submit_inference_job t cfg f body st =
      if f.busy
      then send_error fails 503 st
      else if not f.job_memory || not f.conn_memory
      then send_error fails 500 st
      else hand_over f.worker_takes (prepare t cfg f.message_memory body)
          (on_stats (count_request t) st)

  -- A job that may go to the worker: its budget of tokens, and its stop sequences.
  pub record IsBounded (cfg : Config F) (p : Prepared F) : Type 0 where
    pub budget : IsBudget cfg p.params.max_tokens
    pub stop_bound : p.params.n_stop ≤ 4
    pub same_stops : (p.stop ≡ p.params.stop) × (p.stop_count ≡ p.params.n_stop)

  prepare_chat-IsBounded :
      (cfg : Config F) (req : ChatRequest F)
      → LimitsOk cfg
      → IsWellFormed req
      → IsBounded cfg (prepare_chat cfg req)
  unfolding prepare_chat resolve_params
  prepare_chat-IsBounded cfg req l v = record {
    budget = max_tokens_of-IsBudget fl cfg req.max_tokens l;
    stop_bound = v.stop_counted;
    same_stops = (refl, refl);
  }

  prepare_completion-IsBounded :
      (cfg : Config F) (req : CompletionRequest F)
      → LimitsOk cfg
      → IsWellFormedCompletion req
      → IsBounded cfg (prepare_completion cfg req)
  unfolding prepare_completion resolve_params_completion
  prepare_completion-IsBounded cfg req l v = record {
    budget = max_tokens_of-IsBudget fl cfg req.max_tokens l;
    stop_bound = v.stop_counted;
    same_stops = (refl, refl);
  }

  prepare-IsBounded :
      (t : JobType) (cfg : Config F) (memory : Bool) (body : Bytes) (p : Prepared F)
      → LimitsOk cfg
      → prepare t cfg memory body ≡ some p
      → IsBounded cfg p
  unfolding prepare
  prepare-IsBounded chat cfg memory body p l e =
      let r = chat_request_parse fl cj memory body in
      elim (Bool-cases r.1) [
        | inl ok ↦
            let same : prepare_chat cfg r.0 ≡ p = ground (arith, e) in
            let v = chat_request_parse-IsWellFormed fl cj memory body r.0 (ap (λ b. (r.0, b)) ok) in
            rw (← same) (prepare_chat-IsBounded cfg r.0 l v)
        | inr bad ↦ absurd (ground (arith, e))
      ]
  prepare-IsBounded completion cfg memory body p l e =
      let r = completion_request_parse fl cj body in
      elim (Bool-cases r.1) [
        | inl ok ↦
            let same : prepare_completion cfg r.0 ≡ p = ground (arith, e) in
            let v = completion_request_parse-IsWellFormed fl cj body r.0 (ap (λ b. (r.0, b)) ok) in
            rw (← same) (prepare_completion-IsBounded cfg r.0 l v)
        | inr bad ↦ absurd (ground (arith, e))
      ]

  hand_over-attached :
      (takes : Bool) (prepared : Option (Prepared F)) (st : Option Stats) (p : Prepared F)
      → (hand_over takes prepared st).0 ≡ attached p
      → prepared ≡ some p
  unfolding hand_over send_error
  hand_over-attached takes none st p e = ground (arith, e)
  hand_over-attached takes (some q) st p e = ground (arith, e)

  -- A job that reaches the worker asks for at least one token and at most `n_ctx`, has at most four
  -- stop sequences, and the same in its parameters, if the configuration's limits were validated.
  pub submit_inference_job-IsBounded :
      (t : JobType) (cfg : Config F) (f : Finds) (body : Bytes) (st : Option Stats) (p : Prepared F)
      → LimitsOk cfg
      → (submit_inference_job t cfg f body st).0 ≡ attached p
      → IsBounded cfg p
  unfolding submit_inference_job send_error
  submit_inference_job-IsBounded t cfg f body st p l e =
      let last =
        hand_over-attached f.worker_takes (prepare t cfg f.message_memory body)
          (on_stats (count_request t) st) p in
      prepare-IsBounded t cfg f.message_memory body p l (ground (arith, e, last))

  -- The counters of a submission with its result.
  abbrev pub IsCountedOnce : Stats → Submitted F × Option Stats → Type 0
  IsCountedOnce st (fails n, none) = ⊥
  IsCountedOnce st (attached p, none) = ⊥
  IsCountedOnce st (fails n, some st') =
      (err_total st' ≡ err_total st + 1)
      × (req_total st' ≤ req_total st + 1)
      × ((n ≡ 400) ⊎ (n ≡ 500) ⊎ (n ≡ 503))
  IsCountedOnce st (attached p, some st') =
      (err_total st' ≡ err_total st) × (req_total st' ≡ req_total st + 1)
