-- ===== src/Main.antt =====
-- src/main.c after the configuration is read, with `inference_init` and `inference_destroy` of
-- src/inference.c and `server_init` and `server_destroy` of src/server.c: what the process opens and
-- closes, in order, and what it does to the pid file.
pub mod Cleanup
pub mod Pidfile
mod Tests
use professor_ai.Prelude.{
  ℕ, not, Bool, true, false, Option, none, some, List, [], ◌∷◌, ◌++◌, if◌then◌else◌,
}
use professor_ai.Prelude.Bytes.{Bytes}
use professor_ai.Daemon.{
  Forks, Daemonized, exits, fails, runs, daemonize, Posix, write_pidfile, remove_pidfile,
}

pub data Resource : Type 0 where
  logger backend model context worker manager listener : Resource

pub data Event : Type 0 where
  opens closes : Resource → Event

-- What the calls answer: `logger_init`, `llama_model_load_from_file`, `llama_init_from_model`,
-- `worker_init` and `mg_http_listen` succeed; the forks; the file system; `getpid` after the forks.
pub record World : Type 0 where
  pub log_opens : Bool
  pub loads : Bool
  pub builds : Bool
  pub starts : Bool
  pub binds : Bool
  pub forks : Forks
  pub posix : Posix
  pub pid : ℕ

-- The two pointers of `inference_engine_t`.
pub record EngineParts : Type 0 where
  pub has_model : Bool
  pub has_context : Bool

-- `inference_init`: the engine if 0 is returned, and what was opened and closed.
unfoldable pub inference_init : World → Option EngineParts × List Event
inference_init w =
    if not w.loads
    then (none, opens backend ∷ closes backend ∷ [])
    else if not w.builds
    then (none, opens backend ∷ opens model ∷ closes model ∷ closes backend ∷ [])
    else (
      some (record { has_model = true; has_context = true }),
      opens backend ∷ opens model ∷ opens context ∷ [],
    )

unfoldable pub inference_destroy : EngineParts → List Event
inference_destroy e =
    (if e.has_context then closes context ∷ [] else [])
    ++ (if e.has_model then closes model ∷ [] else [])
    ++ closes backend ∷ []

-- `server_init`: whether 0 is returned.
unfoldable pub server_init : World → Bool × List Event
server_init w =
    if w.binds then (true, opens manager ∷ opens listener ∷ []) else (false, opens manager ∷ [])

-- `mg_mgr_free` closes the connections and frees the manager.
unfoldable pub server_destroy : List Event
server_destroy = closes listener ∷ closes manager ∷ []

-- The exit status (none for a parent that `daemon_daemonize` ends), the events, and the pid file.
pub record Run : Type 0 where
  pub status : Option ℕ
  pub trace : List Event
  pub file : Option Bytes

-- From `worker_init` to the end.
unfoldable pub serve : World → Bool → Bytes → EngineParts → List Event → Option Bytes → Run
unfolding server_init server_destroy inference_destroy
serve w daemonizes path engine past file =
    let gone = if daemonizes then remove_pidfile w.posix path file else file in
    let freed = inference_destroy engine ++ closes logger ∷ [] in
    let (up, served) = server_init w in
    if not w.starts
    then record { status = some 1; trace = past ++ freed; file = gone }
    else if not up
    then record {
      status = some 1;
      trace = past ++ opens worker ∷ served ++ closes worker ∷ freed;
      file = gone;
    }
    else record {
      status = some 0;
      trace = past ++ opens worker ∷ served ++ server_destroy ++ closes worker ∷ freed;
      file = gone;
    }

-- What follows `daemon_daemonize`: a parent is gone, a child writes the pid file.
unfoldable pub forked : Daemonized → World → Bytes → EngineParts → List Event → Option Bytes → Run
unfolding inference_destroy serve
forked exits w path engine past file = record { status = none; trace = past; file = file }
forked fails w path engine past file = record {
  status = some 1;
  trace = past ++ inference_destroy engine ++ closes logger ∷ [];
  file = file;
}
forked runs w path engine past file =
    let (written, written_file) = write_pidfile w.posix w.pid path file in
    serve w true path engine past written_file

-- `if (cfg.daemonize)`
unfoldable pub start : World → Bool → Bytes → EngineParts → List Event → Option Bytes → Run
unfolding forked serve
start w daemonizes path engine past file =
    if daemonizes
    then forked (daemonize w.forks) w path engine past file
    else serve w false path engine past file

-- `main` from `logger_init` on, with `cfg.daemonize` and `cfg.pid_file`.
unfoldable pub main : World → Bool → Bytes → Option Bytes → Run
unfolding inference_init start
main w daemonizes path file =
    let (engine, events) = inference_init w in
    if not w.log_opens then record { status = some 1; trace = []; file = file } else elim engine [
      | none ↦ record {
        status = some 1;
        trace = opens logger ∷ events ++ closes logger ∷ [];
        file = file;
      }
      | some e ↦ start w daemonizes path e (opens logger ∷ events) file
    ]
