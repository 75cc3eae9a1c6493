-- ===== src/Main/Pidfile.antt =====
-- The pid file over the life of `main` in src/main.c.
use professor_ai.Prelude.{
  Bool, true, false, ◌&&◌, ◌≡◌, refl, Option, none, some, List, [], ◌∷◌, if◌then◌else◌, arith,
  Bool-cases, inl, inr,
}
use professor_ai.Prelude.Bytes.{Bytes}
use professor_ai.Config.Parse.{is_nil}
use professor_ai.Daemon.{
  Daemonized, exits, fails, runs, daemonize, Posix, unlink, write_pidfile, remove_pidfile,
}
use professor_ai.Main.{Event, World, EngineParts, inference_init, serve, forked, start, main}
use professor_ai.Main.Cleanup.{loaded, opened}

abbrev pub is_child : Daemonized → Bool
is_child exits = false
is_child fails = false
is_child runs = true

-- The process gets as far as the pid file.
abbrev pub reaches : World → Bool → Bool
reaches w daemonizes =
    w.log_opens && w.loads && w.builds && daemonizes && is_child (daemonize w.forks)

removed :
    (p : Posix) (path : Bytes) (file : Option Bytes)
    → p.removable ≡ true
    → is_nil path ≡ false
    → remove_pidfile p path file ≡ none
unfolding remove_pidfile unlink is_nil
removed p [] file r given = ground arith
removed p (c ∷ path) none r given = refl
removed p (c ∷ path) (some text) r given = rw r refl

-- `serve` does the same to the pid file on each of its ways.
serve_pidfile :
    (w : World) (daemonizes : Bool) (path : Bytes) (engine : EngineParts) (past : List Event)
    (file : Option Bytes)
    → w.posix.removable ≡ true
    → is_nil path ≡ false
    → (serve w daemonizes path engine past file).file ≡ (if daemonizes then none else file)
unfolding serve
serve_pidfile w daemonizes path engine past file r given =
    ground (arith, removed w.posix path file r given)

forked_pidfile :
    (d : Daemonized) (w : World) (path : Bytes) (engine : EngineParts) (past : List Event)
    (file : Option Bytes)
    → w.posix.removable ≡ true
    → is_nil path ≡ false
    → (forked d w path engine past file).file ≡ (if is_child d then none else file)
unfolding forked
forked_pidfile exits w path engine past file r given = refl
forked_pidfile fails w path engine past file r given = refl
forked_pidfile runs w path engine past file r given =
    serve_pidfile w true path engine past (write_pidfile w.posix w.pid path file).1 r given

start_pidfile :
    (w : World) (daemonizes : Bool) (path : Bytes) (engine : EngineParts) (past : List Event)
    (file : Option Bytes)
    → w.posix.removable ≡ true
    → is_nil path ≡ false
    → (start w daemonizes path engine past file).file
      ≡ (if daemonizes && is_child (daemonize w.forks) then none else file)
unfolding start
start_pidfile w false path engine past file r given =
    serve_pidfile w false path engine past file r given
start_pidfile w true path engine past file r given =
    forked_pidfile (daemonize w.forks) w path engine past file r given

-- The pid file in the end: as it was, unless the process gets as far as writing it. Then there is none,
-- whether `write_pidfile` succeeded or refused, and whatever the rest of the start came to.
pub main_pidfile :
    (w : World) (daemonizes : Bool) (path : Bytes) (file : Option Bytes)
    → w.posix.removable ≡ true
    → is_nil path ≡ false
    → (main w daemonizes path file).file ≡ (if reaches w daemonizes then none else file)
unfolding main inference_init
main_pidfile w daemonizes path file r given = elim (Bool-cases w.log_opens) [
  | inr bad ↦ rw bad refl
  | inl good ↦ elim (Bool-cases w.loads) [
    | inr bad ↦ simp (good, bad)
    | inl loads ↦ elim (Bool-cases w.builds) [
      | inr bad ↦ simp (good, loads, bad)
      | inl builds ↦
          simp (good, loads, builds, start_pidfile w daemonizes path loaded opened file r given)
    ]
  ]
]
