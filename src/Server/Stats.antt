-- ===== src/Server/Stats.antt =====
-- src/stats.h: the counters of `stats_t`; src/stats.c: `stats_init` and the totals of a report.
-- The 64-bit counters are numbers: no run reaches their end.
use professor_ai.Prelude.{ℕ, ◌+◌, ◌≡◌, Bool, false, ◌||◌, if◌then◌else◌, ◌==◌, arith}

pub record Stats : Type 0 where
  pub req_chat : ℕ
  pub req_completion : ℕ
  pub req_stream : ℕ
  pub req_health : ℕ
  pub req_models : ℕ
  pub err_400 : ℕ
  pub err_401 : ℕ
  pub err_405 : ℕ
  pub err_503 : ℕ
  pub err_500 : ℕ
  pub inferences_total : ℕ
  pub tokens_prompt_total : ℕ
  pub tokens_completion_total : ℕ
  pub inference_ms_total : ℕ
  pub connections_total : ℕ
  pub connections_rejected : ℕ
  pub connections_active : ℕ
  pub generating : Bool

unfoldable pub init : Stats
init = record {
  req_chat = 0;
  req_completion = 0;
  req_stream = 0;
  req_health = 0;
  req_models = 0;
  err_400 = 0;
  err_401 = 0;
  err_405 = 0;
  err_503 = 0;
  err_500 = 0;
  inferences_total = 0;
  tokens_prompt_total = 0;
  tokens_completion_total = 0;
  inference_ms_total = 0;
  connections_total = 0;
  connections_rejected = 0;
  connections_active = 0;
  generating = false;
}

-- The `switch` of `send_error` (src/server.c): any other status counts as a 500.
unfoldable pub count_error : ℕ → Stats → Stats
count_error status st =
    if status == 400
    then record st { err_400 = st.err_400 + 1 }
    else if status == 401
    then record st { err_401 = st.err_401 + 1 }
    else if status == 405
    then record st { err_405 = st.err_405 + 1 }
    else if status == 503
    then record st { err_503 = st.err_503 + 1 }
    else record st { err_500 = st.err_500 + 1 }

-- `req_total` and `err_total` of `stats_report`.
unfoldable pub req_total : Stats → ℕ
req_total st = st.req_chat + st.req_completion + st.req_stream

unfoldable pub err_total : Stats → ℕ
err_total st = st.err_400 + st.err_401 + st.err_405 + st.err_503 + st.err_500

-- Every error that is sent is counted once, in one of the five counters, and nothing else changes; a
-- status that has no counter of its own counts as a 500.
pub count_error-total :
    (status : ℕ) (st : Stats)
    → (err_total (count_error status st) ≡ err_total st + 1)
      × (req_total (count_error status st) ≡ req_total st)
      × ((count_error status st).err_500 ≡ (
          if status == 400 || status == 401 || status == 405 || status == 503
          then st.err_500
          else st.err_500 + 1))
unfolding err_total req_total count_error
count_error-total status st = ground arith
