-- ===== src/Server/Loop.antt =====
-- src/server.c: `server_run` with the signals that arrive while it runs.
use professor_ai.Prelude.{ℕ, Bool, true, List, [], ◌∷◌, if◌then◌else◌, Option}
use professor_ai.Daemon.Signals.{Signal, Process, deliver}
use professor_ai.Server.Report.{Timing, Tick, Report, stats_check_report, put_report}

-- A round of the loop, with the signals that arrive from its test on until the next.
pub record Round : Type 0 where
  pub signals : List Signal
  pub tick : Tick

-- The process, how many rounds were made, the reports, and whether the loop was left; it was not where
-- the rounds are used up.
pub record Looped : Type 0 where
  pub process : Process
  pub rounds : List Round
  pub reports : List (ℕ × Report)
  pub left : Bool

unfoldable pub after_round : Round → Option Report → Looped → Looped
after_round k report rest = record rest {
  rounds = k ∷ rest.rounds;
  reports = put_report k.tick.now report rest.reports;
}

-- `while (!g_shutdown_requested)`
unfoldable pub run_rounds : List Round → Process → Timing → Looped
unfolding after_round
run_rounds [] p t = record { process = p; rounds = []; reports = []; left = p.shutdown }
run_rounds (k ∷ ks) p t =
    let (t', report) = stats_check_report k.tick t in
    let rest = run_rounds ks (deliver k.signals p) t' in
    if p.shutdown
    then record { process = p; rounds = []; reports = []; left = true }
    else after_round k report rest
