-- ===== src/Daemon/Signals.antt =====
-- src/daemon.c: the signal handler, `daemon_install_signals` and `g_shutdown_requested`.
use professor_ai.Prelude.{Bool, true, false, List, [], ◌∷◌}

-- The signals that the source names.
pub data Signal : Type 0 where
  sigterm sigint sigpipe : Signal

-- What a signal does to a process: its default action, nothing, or a call of `signal_handler`.
pub data Disposition : Type 0 where
  default_action ignored handled : Disposition

-- The dispositions, `g_shutdown_requested`, and whether a default action has ended the process.
pub record Process : Type 0 where
  pub on_term : Disposition
  pub on_int : Disposition
  pub on_pipe : Disposition
  pub shutdown : Bool
  pub killed : Bool

-- A process as it starts.
unfoldable pub fresh_process : Process
fresh_process = record {
  on_term = default_action;
  on_int = default_action;
  on_pipe = default_action;
  shutdown = false;
  killed = false;
}

unfoldable pub install_signals : Process → Process
install_signals p = record p { on_term = handled; on_int = handled; on_pipe = ignored }

unfoldable pub signal_handler : Process → Process
signal_handler p = record p { shutdown = true }

unfoldable pub disposition : Signal → Process → Disposition
disposition sigterm p = p.on_term
disposition sigint p = p.on_int
disposition sigpipe p = p.on_pipe

-- The default action of each of the three ends the process.
unfoldable pub dispose : Disposition → Process → Process
unfolding signal_handler
dispose default_action p = record p { killed = true }
dispose ignored p = p
dispose handled p = signal_handler p

unfoldable pub deliver : List Signal → Process → Process
deliver [] p = p
deliver (s ∷ ss) p = deliver ss (dispose (disposition s p) p)
