-- ===== src/Main/Tests.antt =====
-- The life of the process on concrete outcomes.
use professor_ai.Prelude.{◌≡◌, refl, ◌==◌, true, false, none, some}
use professor_ai.Prelude.Int.{pos, negsuc}
use professor_ai.Prelude.Bytes.{Bytes, codes}
use professor_ai.Config.Parse.{is_nil}
use professor_ai.Daemon.{Posix, daemonize}
use professor_ai.Main.{World, main}
use professor_ai.Main.Cleanup.{main_closes, replay, idle}
use professor_ai.Main.Pidfile.{main_pidfile}

abbrev posix : Posix
posix = record {
  creatable = true;
  readable = true;
  removable = true;
  accepts = 4096;
  alive = λ v. elim v [ pos n ↦ n == 4711 | negsuc n ↦ false ];
}

-- The last child of the forks; all calls succeed but that of the worker.
abbrev child : World
child = record {
  log_opens = true;
  loads = true;
  builds = true;
  starts = false;
  binds = true;
  forks = record { first = pos 0; session = pos 7; second = pos 0; devnull = pos 3 };
  posix = posix;
  pid = 815;
}

abbrev path : Bytes
path = codes "/run/professord.pid"

main_closes_example : replay (main child true path none).trace idle ≡ some idle
unfolding daemonize
main_closes_example = main_closes child true path none refl refl

-- The daemon 4711 runs, and its pid file is gone.
main_pidfile_example : (main child true path (some (codes "4711\n"))).file ≡ none
unfolding daemonize is_nil
main_pidfile_example = main_pidfile child true path (some (codes "4711\n")) refl refl
