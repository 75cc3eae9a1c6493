-- ===== src/Logger/Tests.antt =====
-- Lines of the log.
use professor_ai.Prelude.Text.{decimal, chop}
use professor_ai.Prelude.{◌≡◌, refl, true, false, some, [], ◌∷◌}
use professor_ai.Prelude.Bytes.{codes}
use professor_ai.Config.Load.{has_byte}
use professor_ai.Config.Parse.{is_nil}
use professor_ai.Logger.{
  Logger, syslog, file, Message, Stamp, logger_log, logger_enable_syslog, llama_log_cb, warn,
  map_level, passes, stderr_line, syslog_line, file_line, body_text, color_text, stamp_text,
  place_text, basename, pad_right, pad_left, level_names, level_colors, level_to_syslog,
}

abbrev info_level : Logger
info_level = record {
  level = 2;
  has_file = true;
  use_color = true;
  use_stderr = true;
  use_syslog = false;
}

abbrev message : Message
message = record { path = codes "/src/main.c"; line = 127; text = codes "starting up" }

abbrev noon : Stamp
noon = record { timebuf = codes "2026-01-02T12:00:00"; tv_nsec = 7000000 }

logger_log-daemon :
    logger_log (logger_enable_syslog info_level) 3 message noon noon
    ≡ record { sink = syslog; priority = 4; text = codes "WARN  main.c:127: starting up" }
      ∷ record {
        sink = file;
        priority = 0;
        text = codes "2026-01-02T12:00:00.007Z WARN  main.c:127: starting up\n";
      }
      ∷ []
unfolding logger_log logger_enable_syslog passes stderr_line syslog_line file_line body_text
    color_text stamp_text place_text basename pad_right pad_left level_names level_colors
    level_to_syslog decimal has_byte
logger_log-daemon = refl

llama_log_cb-warn : llama_log_cb warn (codes "low memory\n") ≡ some (3, codes "[llama] low memory")
unfolding llama_log_cb chop map_level is_nil
llama_log_cb-warn = refl
