-- ===== src/Main/Cleanup.antt =====
-- What `main` of src/main.c opens and closes, replayed event by event.
use professor_ai.Prelude.{
  not, Bool, true, false, ◌&&◌, ◌||◌, ◌≡◌, refl, Option, none, some, List, [], ◌∷◌, if◌then◌else◌,
  arith, Bool-cases, inl, inr,
}
use professor_ai.Prelude.Bytes.{Bytes}
use professor_ai.Daemon.{Daemonized, exits, fails, runs, daemonize, write_pidfile}
use professor_ai.Main.{
  Resource, logger, backend, model, context, worker, manager, listener, Event, opens, closes, World,
  EngineParts, inference_init, inference_destroy, server_init, server_destroy, serve, forked, start,
  main,
}

-- Which resources are open.
pub record Live : Type 0 where
  pub logger : Bool
  pub backend : Bool
  pub model : Bool
  pub context : Bool
  pub worker : Bool
  pub manager : Bool
  pub listener : Bool

abbrev pub idle : Live
idle = record {
  logger = false;
  backend = false;
  model = false;
  context = false;
  worker = false;
  manager = false;
  listener = false;
}

-- A resource is opened when it is shut and what it uses is open, and closed when it is open and
-- nothing that uses it is: the engine's parts use each other and the logger, the worker the context,
-- the listener the manager and the worker.
abbrev pub permits : Event → Live → Bool
permits (opens logger) l = not l.logger
permits (opens backend) l = not l.backend && l.logger
permits (opens model) l = not l.model && l.backend
permits (opens context) l = not l.context && l.model
permits (opens worker) l = not l.worker && l.context && l.logger
permits (opens manager) l = not l.manager
permits (opens listener) l = not l.listener && l.manager && l.worker && l.logger
permits (closes logger) l = l.logger && not (l.backend || l.worker || l.listener)
permits (closes backend) l = l.backend && not l.model
permits (closes model) l = l.model && not l.context
permits (closes context) l = l.context && not l.worker
permits (closes worker) l = l.worker && not l.listener
permits (closes manager) l = l.manager && not l.listener
permits (closes listener) l = l.listener

abbrev pub set : Resource → Bool → Live → Live
set logger b l = record l { logger = b }
set backend b l = record l { backend = b }
set model b l = record l { model = b }
set context b l = record l { context = b }
set worker b l = record l { worker = b }
set manager b l = record l { manager = b }
set listener b l = record l { listener = b }

abbrev pub happen : Event → Live → Live
happen (opens r) l = set r true l
happen (closes r) l = set r false l

-- The events one after the other: what is open in the end, if each was permitted.
abbrev pub replay : List Event → Live → Option Live
replay [] l = some l
replay (e ∷ es) l = if permits e l then replay es (happen e l) else none

abbrev pub ends : Daemonized → Bool
ends exits = false
ends fails = true
ends runs = true

-- The process does not end as a parent of a fork.
abbrev pub stays : World → Bool → Bool
stays w daemonizes = if daemonizes then ends (daemonize w.forks) else true

abbrev pub loaded : EngineParts
loaded = record { has_model = true; has_context = true }

abbrev pub opened : List Event
opened = opens logger ∷ opens backend ∷ opens model ∷ opens context ∷ []

serve_closes :
    (w : World) (daemonizes : Bool) (path : Bytes) (file : Option Bytes)
    → w.binds ≡ true
    → replay (serve w daemonizes path loaded opened file).trace idle ≡ some idle
unfolding serve inference_destroy server_init server_destroy
serve_closes w daemonizes path file binds = elim (Bool-cases w.starts) [
  | inl good ↦ rw (binds, good) refl
  | inr bad ↦ rw (binds, bad) refl
]

forked_closes :
    (d : Daemonized) (w : World) (path : Bytes) (file : Option Bytes)
    → ends d ≡ true
    → w.binds ≡ true
    → replay (forked d w path loaded opened file).trace idle ≡ some idle
unfolding forked inference_destroy
forked_closes exits w path file h binds = ground arith
forked_closes fails w path file h binds = refl
forked_closes runs w path file h binds =
    serve_closes w true path (write_pidfile w.posix w.pid path file).1 binds

start_closes :
    (w : World) (daemonizes : Bool) (path : Bytes) (file : Option Bytes)
    → stays w daemonizes ≡ true
    → w.binds ≡ true
    → replay (start w daemonizes path loaded opened file).trace idle ≡ some idle
unfolding start
start_closes w false path file h binds = serve_closes w false path file binds
start_closes w true path file h binds = forked_closes (daemonize w.forks) w path file h binds

-- When the listening address is free, every way through `main` closes all it opened, and closes and
-- opens nothing out of turn.
pub main_closes :
    (w : World) (daemonizes : Bool) (path : Bytes) (file : Option Bytes)
    → stays w daemonizes ≡ true
    → w.binds ≡ true
    → replay (main w daemonizes path file).trace idle ≡ some idle
unfolding main inference_init
main_closes w daemonizes path file h binds = elim (Bool-cases w.log_opens) [
  | inr bad ↦ rw bad refl
  | inl good ↦ elim (Bool-cases w.loads) [
    | inr bad ↦ simp (good, bad)
    | inl loads ↦ elim (Bool-cases w.builds) [
      | inr bad ↦ simp (good, loads, bad)
      | inl builds ↦ simp (good, loads, builds, start_closes w daemonizes path file h binds)
    ]
  ]
]
