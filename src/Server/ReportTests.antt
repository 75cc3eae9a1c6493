-- ===== src/Server/ReportTests.antt =====
-- Reports of the event loop, and the handlers that only read.
use professor_ai.Prelude.{ℕ, ◌*◌, ◌+◌, ◌≡◌, refl, true, false, List, [], ◌∷◌, map}
use professor_ai.Prelude.Bytes.{codes}
use professor_ai.Server.Stats
use professor_ai.Server.Stats.{Stats, req_total, err_total}
use professor_ai.Server.Report.{
  Timing, Tick, second, is_due, stats_report, stats_check_report, put_report, server_run,
}
use professor_ai.Daemon.Signals.{sigpipe, sigint, fresh_process, install_signals}
use professor_ai.Server.Loop.{Round, run_rounds}
use professor_ai.Server.LoopLaws.{rounds_until, run_rounds_stops}
use professor_ai.Server.Handlers.{handle_health}

abbrev minute : Timing
minute = record { start_time = 5 * second; last_report_time = 5 * second; interval = 60 }

abbrev tick : ℕ → Tick
tick now = record {
  stats = Stats.init;
  busy = false;
  now = now * second;
  reported = now * second + 1;
}

abbrev ticks : List Tick
ticks = tick 64 ∷ tick 65 ∷ tick 125 ∷ tick 3800 ∷ []

-- The second report is made a little later than the first test asks for, so the round at 125 s is early.
server_run-uptimes :
    map {B = ℕ × ℕ × ℕ} (λ r. (r.1.uptime_h, r.1.uptime_m, r.1.uptime_s)) (server_run ticks minute)
    ≡ (0, 1, 0) ∷ (1, 3, 15) ∷ []
unfolding server_run stats_check_report put_report is_due stats_report Stats.init req_total
    err_total
server_run-uptimes = refl

handle_health-body :
    (handle_health (codes "0.1.0") Stats.init).1.body
    ≡ codes "{\"status\":\"ok\",\"version\":\"0.1.0\"}"
unfolding handle_health
handle_health-body = refl

abbrev rounds : List Round
rounds =
    record { signals = []; tick = tick 64 }
    ∷ record { signals = sigpipe ∷ sigint ∷ []; tick = tick 125 }
    ∷ record { signals = []; tick = tick 3800 }
    ∷ []

run_rounds_stops_example :
    let l = run_rounds rounds (install_signals fresh_process) minute in
    (l.rounds ≡ rounds_until rounds)
    × (l.left ≡ true)
    × (l.process.shutdown ≡ true)
    × (l.process.killed ≡ false)
    × (l.reports ≡ server_run (tick 64 ∷ tick 125 ∷ []) minute)
run_rounds_stops_example = run_rounds_stops rounds minute
