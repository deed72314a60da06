-- ===== src/Library/Logging.antt =====
-- library/log.cpp: the sinks that pass messages on to the client's logger, beside the library's state.
use bzapi.Base.{ℕ, ◌+◌, Bool, true, if◌then◌else◌}
use bzapi.Library.{Library, terminate}

-- `the_logger` says whether the pointer is set; each sink passes every message to it.
pub record Logging : Type 0 where
  pub the_logger : Bool
  pub sinks : ℕ

init_logging : Logging → Logging
init_logging g = record g { sinks = g.sinks + 1 }

end_logging : Logging → Logging
end_logging g = record g { sinks = 0 }

unfoldable pub set_logger : Logging → Logging
set_logger g = record g { the_logger = true }

-- How often the logger gets a message that is logged once: `consume` of each sink.
abbrev pub times_logged : Logging → ℕ
times_logged g = if g.the_logger then g.sinks else 0

-- The global variables of the library, those of the log included.
pub record Process : Type 0 where
  pub library : Library
  pub logging : Logging

-- `common_init` begins with `init_logging`, and `terminate` calls `end_logging`.
abbrev pub logging_after_initialize : Library → Logging → Logging
unfolding init_logging
logging_after_initialize l g = if l.initialized then g else init_logging g

unfoldable pub terminate_process : Process → Process
unfolding terminate end_logging
terminate_process p = record {
  library = terminate p.library;
  logging = if p.library.initialized then end_logging p.logging else p.logging;
}
