-- ===== src/Server/LoopLaws.antt =====
-- src/server.c and src/daemon.c: when `server_run` ends.
use professor_ai.Prelude.{
  ◌≡◌, refl, Bool, true, false, ◌||◌, List, [], ◌∷◌, if◌then◌else◌, map, Bool-cases, inl, inr,
}
use professor_ai.Daemon.Signals.{
  Signal, sigterm, sigint, sigpipe, Process, handled, ignored, fresh_process, install_signals,
  signal_handler, disposition, dispose, deliver,
}
use professor_ai.Server.Report.{Timing, stats_check_report, server_run}
use professor_ai.Server.Loop.{Round, Looped, after_round, run_rounds}

-- A process that has installed its handlers, and `g_shutdown_requested`.
abbrev pub installed : Bool → Process
installed b = record {
  on_term = handled;
  on_int = handled;
  on_pipe = ignored;
  shutdown = b;
  killed = false;
}

abbrev pub is_stop : Signal → Bool
is_stop sigterm = true
is_stop sigint = true
is_stop sigpipe = false

abbrev pub asks : List Signal → Bool
asks [] = false
asks (s ∷ ss) = is_stop s || asks ss

-- The rounds up to the first in which a stop is asked for, that one with them.
abbrev pub rounds_until : List Round → List Round
rounds_until [] = []
rounds_until (k ∷ ks) = let rest = rounds_until ks in k ∷ (if asks k.signals then [] else rest)

abbrev pub any_asks : List Round → Bool
any_asks [] = false
any_asks (k ∷ ks) = asks k.signals || any_asks ks

deliver-installed :
    (ss : List Signal) (b : Bool) → deliver ss (installed b) ≡ installed (b || asks ss)
unfolding deliver disposition dispose signal_handler
deliver-installed [] false = refl
deliver-installed [] true = refl
deliver-installed (sigterm ∷ ss) false = deliver-installed ss true
deliver-installed (sigterm ∷ ss) true = deliver-installed ss true
deliver-installed (sigint ∷ ss) false = deliver-installed ss true
deliver-installed (sigint ∷ ss) true = deliver-installed ss true
deliver-installed (sigpipe ∷ ss) false = deliver-installed ss false
deliver-installed (sigpipe ∷ ss) true = deliver-installed ss true

run_rounds-stopped :
    (ks : List Round) (t : Timing)
    → run_rounds ks (installed true) t
      ≡ record { process = installed true; rounds = []; reports = []; left = true }
unfolding run_rounds
run_rounds-stopped [] t = refl
run_rounds-stopped (k ∷ ks) t = refl

abbrev expected : List Round → Timing → Looped
expected ks t = record {
  process = installed (any_asks ks);
  rounds = rounds_until ks;
  reports = server_run (map (λ (k : Round). k.tick) (rounds_until ks)) t;
  left = any_asks ks;
}

installed-run : (ks : List Round) (t : Timing) → run_rounds ks (installed false) t ≡ expected ks t
unfolding run_rounds after_round server_run
installed-run [] t = refl
installed-run (k ∷ ks) t =
    let next = stats_check_report k.tick t in
    let told = deliver-installed k.signals false in
    elim (Bool-cases (asks k.signals)) [
      | inl stop ↦ rw (told, stop, run_rounds-stopped ks next.0) refl
      | inr on ↦ rw (told, on, installed-run ks next.0) refl
    ]

-- Once the signals are installed, none of the three ends the process by itself. `server_run` makes the
-- rounds up to the first in which SIGTERM or SIGINT arrives, that one with them, and is left then and
-- only then; SIGPIPE changes nothing; and it reports what it would report over these rounds.
pub run_rounds_stops :
    (ks : List Round) (t : Timing)
    → let l = run_rounds ks (install_signals fresh_process) t in
      (l.rounds ≡ rounds_until ks)
      × (l.left ≡ any_asks ks)
      × (l.process.shutdown ≡ any_asks ks)
      × (l.process.killed ≡ false)
      × (l.reports ≡ server_run (map (λ (k : Round). k.tick) (rounds_until ks)) t)
unfolding install_signals fresh_process
run_rounds_stops ks t = rw (installed-run ks t) (refl, refl, refl, refl, refl)
