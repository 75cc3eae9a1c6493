-- ===== src/Daemon.antt =====
-- src/daemon.c: the fork into the background, and the pid file. The operating system's answers are
-- parameters; the file system is what it has under the pid file's path.
pub mod Pidfile
pub mod Signals
mod Tests
use professor_ai.Prelude.Text.{decimal}
use professor_ai.Prelude.{
  ℕ, zero, suc, ◌+◌, ◌/◌, ◌%◌, ◌&&◌, not, Bool, true, false, Option, none, some, List, [], ◌∷◌,
  ◌++◌, if◌then◌else◌, ltb, leb, length, take,
}
use professor_ai.Prelude.Int.{ℤ, pos, ltb_ℤ}
use professor_ai.Prelude.Bytes.{Bytes}
use professor_ai.Config.Parse.{strtol_long, to_int32, is_nil}

-- The results of `fork`, `setsid`, `fork` and `open("/dev/null")`.
pub record Forks : Type 0 where
  pub first : ℤ
  pub session : ℤ
  pub second : ℤ
  pub devnull : ℤ

-- How `daemon_daemonize` ends in one process.
pub data Daemonized : Type 0 where
  exits fails runs : Daemonized

unfoldable pub daemonize : Forks → Daemonized
daemonize f =
    if ltb_ℤ f.first (pos 0)
    then fails
    else if ltb_ℤ (pos 0) f.first
    then exits
    else if ltb_ℤ f.session (pos 0)
    then fails
    else if ltb_ℤ f.second (pos 0)
    then fails
    else if ltb_ℤ (pos 0) f.second
    then exits
    else if ltb_ℤ f.devnull (pos 0)
    then fails
    else runs

-- `creatable`: `open(path, O_CREAT | O_EXCL | O_WRONLY)` succeeds where there is no file; `readable`:
-- `open(path, O_RDONLY | O_NOFOLLOW)` succeeds where there is one; `removable`: `unlink` does;
-- `accepts`: how many bytes `write` takes; `alive pid`: `kill(pid, 0) == 0`.
pub record Posix : Type 0 where
  pub creatable : Bool
  pub readable : Bool
  pub removable : Bool
  pub accepts : ℕ
  pub alive : ℤ → Bool

-- `snprintf(buf, 32, "%d\n", (int)getpid())`; an `int` has at most ten digits.
unfoldable pub pid_text : ℕ → Bytes
unfolding decimal
pid_text pid = decimal 10 pid ++ 10 ∷ []

unfoldable pub unlink : Posix → Option Bytes → Option Bytes
unlink p none = none
unlink p (some text) = if p.removable then none else some text

-- `open` with O_CREAT and O_EXCL, and what follows it: whether 0 is returned, and the file.
unfoldable pub create : Posix → ℕ → Option Bytes → Bool × Option Bytes
unfolding unlink
create p pid (some text) = (false, some text)
create p pid none =
    let text = pid_text pid in
    if not p.creatable
    then (false, none)
    else if ltb p.accepts (length text)
    then (false, unlink p (some (take p.accepts text)))
    else (true, some text)

-- The pid in the file is that of a running process.
unfoldable pub holds : Posix → Bytes → Bool
holds p text =
    let old = strtol_long (take 31 text) in
    not (is_nil text) && ltb_ℤ (pos 0) old && p.alive (to_int32 old)

-- What follows the test of an old file that nobody holds.
unfoldable pub replace : Posix → ℕ → Option Bytes → Bool × Option Bytes
replace p pid file = create p pid (unlink p file)

-- `daemon_write_pidfile(path)`, for the file under the path.
unfoldable pub write_pidfile : Posix → ℕ → Bytes → Option Bytes → Bool × Option Bytes
unfolding replace
write_pidfile p pid [] file = (true, file)
write_pidfile p pid (c ∷ path) none = create p pid none
write_pidfile p pid (c ∷ path) (some text) =
    if not p.readable
    then (false, some text)
    else if holds p text
    then (false, some text)
    else replace p pid (some text)

-- `daemon_remove_pidfile(path)`
unfoldable pub remove_pidfile : Posix → Bytes → Option Bytes → Option Bytes
remove_pidfile p [] file = file
remove_pidfile p (c ∷ path) file = unlink p file
