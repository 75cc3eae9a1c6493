-- ===== src/Logger/Laws.antt =====
-- The lines of `logger_log` in src/logger.c, by sink.
use professor_ai.Prelude.{
  ℕ, suc, ◌≡◌, refl, ap, ◌∙◌, Bool, true, false, ◌&&◌, ◌||◌, List, [], ◌∷◌, ◌++◌, if◌then◌else◌,
  ◌==◌, leb, arith, Bool-cases, inl, inr,
}
use professor_ai.Prelude.Bytes.{Bytes}
use professor_ai.Config.Load.{has_byte}
use professor_ai.Logger.{
  Logger, Sink, stderr, syslog, file, Line, Message, Stamp, part, stderr_line, syslog_line,
  file_line, basename, passes, logger_log,
}

abbrev pub is_sink : Sink → Sink → Bool
is_sink stderr stderr = true
is_sink syslog syslog = true
is_sink file file = true
is_sink s s' = false

-- How many lines go to a sink.
abbrev pub count : Sink → List Line → ℕ
count s [] = 0
count s (l ∷ ls) = if is_sink s l.sink then suc (count s ls) else count s ls

abbrev pub wants : Logger → Sink → Bool
wants lg stderr = lg.use_stderr
wants lg syslog = lg.use_syslog
wants lg file = lg.has_file

passes_iff : (lg : Logger) (level : ℕ) → passes lg level ≡ (leb lg.level level && leb level 5)
unfolding passes
passes_iff lg level = ground arith

abbrev choice : Sink → Bool → Bool → Bool → Bool
choice stderr a b c = a
choice syslog a b c = b
choice file a b c = c

choice-wants :
    (lg : Logger) (s : Sink) → choice s lg.use_stderr lg.use_syslog lg.has_file ≡ wants lg s
choice-wants lg stderr = refl
choice-wants lg syslog = refl
choice-wants lg file = refl

count-part :
    (s : Sink) (a b c : Bool) (x y z : Line)
    → x.sink ≡ stderr
    → y.sink ≡ syslog
    → z.sink ≡ file
    → count s (part a x ++ part b y ++ part c z) ≡ (if choice s a b c then 1 else 0)
count-part stderr a b c x y z hx hy hz = rw (hx, hy, hz) (ground arith)
count-part syslog a b c x y z hx hy hz = rw (hx, hy, hz) (ground arith)
count-part file a b c x y z hx hy hz = rw (hx, hy, hz) (ground arith)

-- A message of a level from the threshold of the logger up to LOG_FATAL goes once to each sink that is
-- on, and to no other; a message of another level goes nowhere.
pub logger_log-once :
    (lg : Logger) (level : ℕ) (m : Message) (t t' : Stamp) (s : Sink)
    → count s (logger_log lg level m t t')
      ≡ (if leb lg.level level && leb level 5 && wants lg s then 1 else 0)
unfolding logger_log stderr_line syslog_line file_line
logger_log-once lg level m t t' s =
    let parts =
      count-part s lg.use_stderr lg.use_syslog lg.has_file (stderr_line lg level m t)
        (syslog_line level m) (file_line level m t') refl refl refl in
    let on = parts ∙ ap (λ b. if b then 1 else 0) (choice-wants lg s) in
    elim (Bool-cases (passes lg level)) [
      | inl yes' ↦ rw (yes', on) (ground (arith, passes_iff lg level, yes'))
      | inr no' ↦ rw no' (ground (arith, passes_iff lg level, no'))
    ]

-- The place in a line is named by a file without its folders.
basename_lem : (s : Bytes) → has_byte 47 (basename s) ≡ false
unfolding basename has_byte
basename_lem [] = refl
basename_lem (c ∷ s) = elim (Bool-cases (has_byte 47 s || c == 47)) [
  | inl slash ↦ rw slash (basename_lem s)
  | inr none_left ↦ rw none_left (ground arith)
]
