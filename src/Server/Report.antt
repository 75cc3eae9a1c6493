-- ===== src/Server/Report.antt =====
-- src/stats.c: the periodic report and the statistics as JSON; src/server.c: `server_run`. A time is the
-- monotonic clock's whole nanoseconds.
use professor_ai.Prelude.{
  ℕ, ◌+◌, ◌-◌, ◌*◌, ◌/◌, ◌%◌, ◌≤◌, ◌≡◌, Bool, true, ◌&&◌, Option, none, some, List, [], ◌∷◌,
  if◌then◌else◌, ltb, leb, arith, Bool-cases, inl, inr,
}
use professor_ai.Server.Stats.{Stats, req_total, err_total}

abbrev pub second : ℕ
second = 1000000000

-- The timing fields of `stats_t`; an interval of 0 or less is no report, and is 0 here.
pub record Timing : Type 0 where
  pub start_time : ℕ
  pub last_report_time : ℕ
  pub interval : ℕ

-- What a report says; an average is the pair that is divided, and none where the divisor is 0.
pub record Report : Type 0 where
  pub uptime_h : ℕ
  pub uptime_m : ℕ
  pub uptime_s : ℕ
  pub connections : ℕ × ℕ × ℕ
  pub requests : ℕ
  pub errors : ℕ
  pub inferences : ℕ
  pub tokens : ℕ × ℕ
  pub avg_inf_ms : Option (ℕ × ℕ)
  pub avg_tps : Option (ℕ × ℕ)
  pub generating : Bool

abbrev pub average : ℕ → ℕ → Option (ℕ × ℕ)
average n d = if ltb 0 d then some (n, d) else none

-- The line of `stats_report` at a time.
unfoldable pub stats_report : ℕ → Timing → Stats → Report
unfolding req_total err_total
stats_report now t st =
    let uptime = now - t.start_time in
    let h = uptime / (3600 * second) in
    record {
      uptime_h = h;
      uptime_m = (uptime - h * (3600 * second)) / (60 * second);
      uptime_s = uptime / second % 60;
      connections = (st.connections_total, st.connections_active, st.connections_rejected);
      requests = req_total st;
      errors = err_total st;
      inferences = st.inferences_total;
      tokens = (st.tokens_prompt_total, st.tokens_completion_total);
      avg_inf_ms = average st.inference_ms_total st.inferences_total;
      avg_tps = average (st.tokens_completion_total * 1000) st.inference_ms_total;
      generating = st.generating;
    }

-- `since_last >= report_interval_seconds`
unfoldable pub is_due : ℕ → Timing → Bool
is_due now t = ltb 0 t.interval && leb (t.interval * second) (now - t.last_report_time)

-- One round of the loop: the statistics after `mg_mgr_poll`, whether the worker is busy, and the clock at
-- the test and at the end of a report.
pub record Tick : Type 0 where
  pub stats : Stats
  pub busy : Bool
  pub now : ℕ
  pub reported : ℕ

unfoldable pub stats_check_report : Tick → Timing → Timing × Option Report
unfolding is_due stats_report
stats_check_report k t =
    let st = record k.stats { generating = k.busy } in
    if is_due k.now t
    then (record t { last_report_time = k.reported }, some (stats_report k.now t st))
    else (t, none)

unfoldable pub put_report : ℕ → Option Report → List (ℕ × Report) → List (ℕ × Report)
put_report now none rest = rest
put_report now (some r) rest = (now, r) ∷ rest

-- `server_run` over the rounds until the shutdown: each report with the time of its test.
unfoldable pub server_run : List Tick → Timing → List (ℕ × Report)
unfolding stats_check_report put_report
server_run [] t = []
server_run (k ∷ ks) t =
    let (t', report) = stats_check_report k t in put_report k.now report (server_run ks t')

-- The times never go back.
abbrev pub Ascends : ℕ → List Tick → Type 0
Ascends low [] = low ≤ low
Ascends low (k ∷ ks) = (low ≤ k.now) × (k.now ≤ k.reported) × Ascends k.reported ks

-- Each report is an interval after the one before, and no earlier.
abbrev pub Spaced : ℕ → ℕ → List (ℕ × Report) → Type 0
Spaced interval last [] = last ≤ last
Spaced interval last (r ∷ rs) = (last + interval * second ≤ r.0) × Spaced interval r.0 rs

Spaced-lower :
    (interval low low' : ℕ) (rs : List (ℕ × Report))
    → low ≤ low'
    → Spaced interval low' rs
    → Spaced interval low rs
Spaced-lower interval low low' [] le h = omega arith
Spaced-lower interval low low' (r ∷ rs) le (h, hs) = (omega arith, hs)

Ascends-lower : (low low' : ℕ) (ks : List Tick) → low ≤ low' → Ascends low' ks → Ascends low ks
Ascends-lower low low' [] le h = omega arith
Ascends-lower low low' (k ∷ ks) le (h, up, hs) = (omega arith, up, hs)

is_due_lem :
    (now : ℕ) (t : Timing)
    → t.last_report_time ≤ now
    → is_due now t ≡ true
    → t.last_report_time + t.interval * second ≤ now
unfolding is_due
is_due_lem now t low due = ground arith

-- On a clock that does not go back, two reports of `server_run`, and the first and the time of the last
-- one before, are the configured interval apart at least.
pub server_run-Spaced :
    (ks : List Tick) (t : Timing)
    → Ascends t.last_report_time ks
    → Spaced t.interval t.last_report_time (server_run ks t)
unfolding server_run stats_check_report put_report
server_run-Spaced [] t asc = omega arith
server_run-Spaced (k ∷ ks) t (low, up, asc) = elim (Bool-cases (is_due k.now t)) [
  | inl due ↦
      let late : t.last_report_time + t.interval * second ≤ k.now = is_due_lem k.now t low due in
      let rest = server_run-Spaced ks (record t { last_report_time = k.reported }) asc in
      rw due (late, Spaced-lower t.interval k.now k.reported _ up rest)
  | inr early ↦
      let rest =
        server_run-Spaced ks t (Ascends-lower t.last_report_time k.reported ks (omega arith) asc) in
      rw early rest
]
