-- ===== src/Daemon/Tests.antt =====
-- The pid file on concrete inputs.
use professor_ai.Prelude.{◌≡◌, refl, ◌==◌, true, false, none, some, arith}
use professor_ai.Prelude.Int.{pos, negsuc}
use professor_ai.Prelude.Bytes.{Bytes, codes}
use professor_ai.Config.Parse.{is_nil, is_space, trim_start, long_of, strtol_long, to_int32}
use professor_ai.Daemon.{Posix, pid_text, create, holds, write_pidfile}
use professor_ai.Daemon.Pidfile.{write_pidfile_excludes}

-- A working file system, where the process 4711 runs.
abbrev running : Posix
running = record {
  creatable = true;
  readable = true;
  removable = true;
  accepts = 4096;
  alive = λ v. elim v [ pos n ↦ n == 4711 | negsuc n ↦ false ];
}

abbrev path : Bytes
path = codes "/run/professord.pid"

pid_text-4711 : pid_text 4711 ≡ codes "4711\n"
unfolding pid_text
pid_text-4711 = refl

write_pidfile-stale :
    write_pidfile running 9 path (some (codes "812\n")) ≡ (true, some (pid_text 9))
unfolding write_pidfile holds is_nil strtol_long long_of trim_start is_space to_int32 create
    pid_text
write_pidfile-stale = refl

write_pidfile_excludes_example :
    write_pidfile running 815 path (some (pid_text 4711)) ≡ (false, some (pid_text 4711))
unfolding is_nil write_pidfile create pid_text
write_pidfile_excludes_example =
    write_pidfile_excludes running running 4711 815 path none (pid_text 4711) refl (omega arith)
      (omega arith) refl (refl, refl, refl, omega arith)
