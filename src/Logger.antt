-- ===== src/Logger.antt =====
-- src/logger.h, src/logger.c, and `llama_log_cb` of src/inference.c. The mutex is left out; the text of
-- a time stamp is `strftime`'s, and an input.
pub mod Laws
mod Tests
use professor_ai.Prelude.Text.{decimal, chop}
use professor_ai.Prelude.{
  ℕ, suc, ◌+◌, ◌-◌, ◌/◌, ◌%◌, ◌^◌, Bool, true, false, not, ◌&&◌, ◌||◌, Option, none, some, List, [],
  ◌∷◌, ◌++◌, if◌then◌else◌, ◌==◌, ltb, leb, length, take, get_or, replicate,
}
use professor_ai.Prelude.Int.{ℤ, pos, negsuc}
use professor_ai.Prelude.Bytes.{Bytes, codes, snprintf_s}
use professor_ai.Config.Parse.{is_nil}
use professor_ai.Config.Load.{has_byte}

-- `logger_t`; an enumeration without negative values is an `unsigned int`, and (log_level_t) wraps.
pub record Logger : Type 0 where
  pub level : ℕ
  pub has_file : Bool
  pub use_color : Bool
  pub use_stderr : Bool
  pub use_syslog : Bool

-- LOG_TRACE and LOG_FATAL
abbrev pub log_trace : ℕ
log_trace = 0

abbrev pub log_fatal : ℕ
log_fatal = 5

-- `(log_level_t)cfg.log_level` of src/main.c
unfoldable pub to_level : ℤ → ℕ
to_level v = elim v [ pos n ↦ n % 2 ^ 32 | negsuc n ↦ (2 ^ 32 - suc n % 2 ^ 32) % 2 ^ 32 ]

-- `logger_init`: the path of the log file; whether `isatty`, `fopen` and `pthread_mutex_init` succeed.
unfoldable pub logger_init : ℕ → Bytes → Bool → Bool → Bool → Bool → Option Logger
logger_init level log_path use_syslog tty opens mutex =
    if not (is_nil log_path) && not opens
    then none
    else if not mutex
    then none
    else some (record {
      level = level;
      has_file = not (is_nil log_path);
      use_color = tty;
      use_stderr = true;
      use_syslog = use_syslog;
    })

unfoldable pub logger_enable_syslog : Logger → Logger
logger_enable_syslog lg = record lg { use_syslog = true; use_stderr = false; use_color = false }

unfoldable pub logger_destroy : Logger → Logger
logger_destroy lg = record lg { has_file = false; use_syslog = false }

pub data Sink : Type 0 where
  stderr syslog file : Sink

-- What is written: the sink, the priority of syslog (0 elsewhere), and the text.
pub record Line : Type 0 where
  pub sink : Sink
  pub priority : ℕ
  pub text : Bytes

-- LOG_CRIT 2, LOG_ERR 3, LOG_WARNING 4, LOG_NOTICE 5, LOG_INFO 6 and LOG_DEBUG 7 of <syslog.h>.
unfoldable pub level_to_syslog : List ℕ
level_to_syslog = 7 ∷ 7 ∷ 6 ∷ 4 ∷ 3 ∷ 2 ∷ []

unfoldable pub level_names : List Bytes
level_names =
    codes "TRACE" ∷ codes "DEBUG" ∷ codes "INFO" ∷ codes "WARN" ∷ codes "ERROR" ∷ codes "FATAL" ∷ []

unfoldable pub level_colors : List Bytes
level_colors =
    codes "[90m" ∷ codes "[36m" ∷ codes "[32m" ∷ codes "[33m" ∷ codes "[31m" ∷ codes "[35m" ∷ []

-- The escape character before each of these, and before the reset.
abbrev pub escaped : Bytes → Bytes
escaped s = 27 ∷ s

unfoldable pub logger_announce : Logger → Bytes → List Line
logger_announce lg msg =
    (if lg.use_stderr
      then record { sink = stderr; priority = 0; text = msg ++ 10 ∷ [] } ∷ []
      else [])
    ++ (if lg.use_syslog then record { sink = syslog; priority = 5; text = msg } ∷ [] else [])
    ++ (if lg.has_file
        then record { sink = file; priority = 0; text = msg ++ 10 ∷ [] } ∷ []
        else [])

-- What stands after the last '/'.
unfoldable pub basename : Bytes → Bytes
basename [] = []
basename (c ∷ s) = let rest = basename s in if has_byte 47 s || c == 47 then rest else c ∷ s

-- "%-5s" and "%03ld"
unfoldable pub pad_right : Bytes → Bytes
pad_right s = s ++ replicate (5 - length s) 32

unfoldable pub pad_left : ℕ → Bytes
unfolding decimal
pad_left n = let s = decimal 19 n in replicate (3 - length s) 48 ++ s

-- `clock_gettime` twice: the text of the seconds, and the nanoseconds.
pub record Stamp : Type 0 where
  pub timebuf : Bytes
  pub tv_nsec : ℕ

unfoldable pub stamp_text : Stamp → Bytes
unfolding pad_left
stamp_text t = t.timebuf ++ 46 ∷ pad_left (t.tv_nsec / 1000000) ++ codes "Z "

-- The call's file and line, and its formatted message.
pub record Message : Type 0 where
  pub path : Bytes
  pub line : ℕ
  pub text : Bytes

unfoldable pub place_text : Message → Bytes
unfolding basename decimal
place_text m = basename m.path ++ 58 ∷ decimal 10 m.line ++ codes ": " ++ snprintf_s 2048 m.text

unfoldable pub passes : Logger → ℕ → Bool
passes lg level = not (ltb level lg.level || ltb level log_trace || ltb log_fatal level)

-- The name of the level, and the place.
unfoldable pub body_text : ℕ → Message → Bytes
unfolding pad_right level_names place_text
body_text level m = pad_right (get_or level_names level []) ++ 32 ∷ place_text m

-- The same with the name in colour.
unfoldable pub color_text : ℕ → Message → Bytes
unfolding pad_right level_names level_colors place_text
color_text level m =
    let name = pad_right (get_or level_names level []) in
    escaped (get_or level_colors level []) ++ name ++ escaped (codes "[0m") ++ 32 ∷ place_text m

unfoldable pub stderr_line : Logger → ℕ → Message → Stamp → Line
unfolding body_text color_text stamp_text
stderr_line lg level m t =
    let text = if lg.use_color then color_text level m else body_text level m in
    record { sink = stderr; priority = 0; text = stamp_text t ++ text ++ 10 ∷ [] }

unfoldable pub syslog_line : ℕ → Message → Line
unfolding body_text level_to_syslog
syslog_line level m = record {
  sink = syslog;
  priority = get_or level_to_syslog level 0;
  text = body_text level m;
}

unfoldable pub file_line : ℕ → Message → Stamp → Line
unfolding body_text stamp_text
file_line level m t = record {
  sink = file;
  priority = 0;
  text = stamp_text t ++ body_text level m ++ 10 ∷ [];
}

abbrev pub part : Bool → Line → List Line
part on l = if on then l ∷ [] else []

unfoldable pub logger_log : Logger → ℕ → Message → Stamp → Stamp → List Line
unfolding passes stderr_line syslog_line file_line
logger_log lg level m t t' =
    if not (passes lg level)
    then []
    else part lg.use_stderr (stderr_line lg level m t)
      ++ part lg.use_syslog (syslog_line level m)
      ++ part lg.has_file (file_line level m t')

-- The levels of llama.cpp that `llama_log_cb` names.
pub data GgmlLevel : Type 0 where
  debug info cont warn error other : GgmlLevel

unfoldable pub map_level : GgmlLevel → ℕ
map_level debug = 1
map_level info = 2
map_level cont = 2
map_level warn = 3
map_level error = 4
map_level other = 1

-- The level and the text that `llama_log_cb` logs: nothing of a text of 2048 bytes or more.
unfoldable pub llama_log_cb : GgmlLevel → Bytes → Option (ℕ × Bytes)
unfolding chop map_level
llama_log_cb level text =
    let buf = if ltb (length text) 2048 then chop text else [] in
    if is_nil buf then none else some (map_level level, codes "[llama] " ++ buf)
