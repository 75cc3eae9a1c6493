-- ===== src/Server/Finish.antt =====
-- src/server.c: how `drain_stream_ring` ends a job: the reply, the access log and the statistics. The
-- texts of the replies are not modelled; `json` says whether their serialization succeeds.
use professor_ai.Prelude.{
  ℕ, ◌+◌, ◌≡◌, refl, ◌⊎◌, Bool, true, false, Option, none, some, if◌then◌else◌, ◌==◌, arith,
}
use professor_ai.Inference.Generate.{FinishReason, context_overflow}
use professor_ai.Server.Stats.{Stats, count_error, req_total, err_total}
use professor_ai.Server.Route.{JobType, chat, completion}
use professor_ai.Server.Submit.{count_request}
use professor_ai.Worker.Protocol.{JobState, idle, running, done, error, is_busy_state}

-- The output fields of a job.
pub record Output : Type 0 where
  pub state : JobState
  pub reason : FinishReason
  pub prompt_tokens : ℕ
  pub completion_tokens : ℕ

-- `strcmp(job->finish_reason, "context_overflow") == 0`
unfoldable pub is_overflow : FinishReason → Bool
is_overflow context_overflow = true
is_overflow _ = false

-- The status of the reply to a job that does not stream.
unfoldable pub reply_status : Bool → JobState → FinishReason → ℕ
reply_status json error reason = if is_overflow reason then 400 else 500
reply_status json _ reason = if json then 200 else 500

-- The status in the access log.
unfoldable pub logged_status : JobState → ℕ
logged_status done = 200
logged_status _ = 500

-- The counters of a finished job.
unfoldable pub count_inference : Output → ℕ → Stats → Stats
count_inference out latency st = record st {
  inferences_total = st.inferences_total + 1;
  tokens_prompt_total = st.tokens_prompt_total + out.prompt_tokens;
  tokens_completion_total = st.tokens_completion_total + out.completion_tokens;
  inference_ms_total = st.inference_ms_total + latency;
}

-- A finished job that does not stream: its reply's status, the logged one, and the statistics.
-- `none`: the job has not finished.
unfoldable pub finish_reply : Bool → ℕ → Output → Stats → Option (ℕ × ℕ × Stats)
unfolding reply_status logged_status
finish_reply json latency out st =
    if is_busy_state out.state
    then none
    else (let status = reply_status json out.state out.reason in
        let told = if status == 200 then st else count_error status st in
        some (status, logged_status out.state, count_inference out latency told))

-- A finished stream.
unfoldable pub finish_stream : ℕ → Output → Stats → Stats
unfolding count_inference
finish_stream latency out st =
    let counted = count_inference out latency st in
    record counted { req_stream = counted.req_stream + 1 }

-- The reply, the log and the counters agree.
abbrev pub Agrees : Output → ℕ → Stats → Option (ℕ × ℕ × Stats) → Type 0
Agrees out latency st none = (out.state ≡ idle) ⊎ (out.state ≡ running)
Agrees out latency st (some (status, logged, st')) =
    ((out.state ≡ done) ⊎ (out.state ≡ error))
    × ((status ≡ 200) × (err_total st' ≡ err_total st)
        ⊎ ((status ≡ 400) ⊎ (status ≡ 500)) × (err_total st' ≡ err_total st + 1))
    × (st'.inferences_total ≡ st.inferences_total + 1)
    × (st'.tokens_prompt_total ≡ st.tokens_prompt_total + out.prompt_tokens)
    × (st'.tokens_completion_total ≡ st.tokens_completion_total + out.completion_tokens)
    × (req_total st' ≡ req_total st)

-- The reply to a prompt that is too long has status 400, and the access log says 500.
pub overflow_logged :
    (json : Bool) (latency : ℕ) (out : Output) (st : Stats)
    → out.state ≡ error
    → out.reason ≡ context_overflow
    → finish_reply json latency out st
      ≡ some (400, 500, count_inference out latency (count_error 400 st))
unfolding finish_reply reply_status logged_status is_overflow is_busy_state
overflow_logged json latency out st e r = rw (e, r) refl

-- A request that streams is counted twice among the report's requests: when it is submitted, and when
-- it is finished; one that does not is counted once.
pub streams_twice :
    (t : JobType) (latency : ℕ) (out : Output) (st : Stats)
    → (req_total (finish_stream latency out (count_request t st)) ≡ req_total st + 2)
      × (req_total (count_inference out latency (count_request t st)) ≡ req_total st + 1)
unfolding finish_stream count_inference count_request req_total
streams_twice chat latency out st = omega arith
streams_twice completion latency out st = omega arith
