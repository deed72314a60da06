-- ===== src/Cli/Process.antt =====
-- The command line client on the library's own `initialize` and `terminate`, up to the exit of the
-- process: bzapi-cli/main.cpp with library/library.cpp and library/log.cpp. The calls on databases
-- are parameters.
pub mod Failed
pub mod Exited
use bzapi.Base.{ℕ, [], Bool, true, false, Option, none, some, if◌then◌else◌}
use bzapi.Base.Text.{Bytes, codes}
use bzapi.Database.Replies.{Operation}
use bzapi.Library.{Library, Outside, Attempt, initialize_by_esr, terminate, set_timeout, fresh}
use bzapi.Library
use bzapi.Library.Logging.{
  Logging, Process, set_logger, logging_after_initialize, terminate_process,
}
use bzapi.Cli.{World, Ended, returned, raised, aborted, Program, Console, Api, File}
use bzapi.Cli.Main.{main, Parsed}

-- What the methods of the library do that need a swarm.
pub record Calls (D : Type 0) : Type 0 where
  pub open_db : Bytes → Program Process (Option D)
  pub create_db : Bytes → ℕ → Bool → Program Process (Option D)
  pub has_db : Bytes → Program Process Bool
  pub perform : D → Operation → Program Process Bytes
  pub swarm_status : D → Program Process Bytes

abbrev pub set_library : World Process → Library → Logging → World Process
set_library w l g = record w { library = record { library = l; logging = g } }

-- An exception of `initialize` would be one that it does not catch, of unknown text.
abbrev pub attempted : {A : Type 0} → World Process → Logging → Attempt A → Ended Process A
attempted w g (Library.returned a l) = returned a (set_library w l g)
attempted w g (Library.raised l) = raised [] (set_library w l g)
attempted w g Library.aborted = aborted

module _ {D : Type 0} (o : Outside) (calls : Calls D) where
  pub initialize_process : Bytes → Bytes → Bytes → Bytes → Program Process Bool
  unfolding initialize_by_esr
  initialize_process public private address url w =
      attempted w (logging_after_initialize w.library.library w.library.logging)
        (initialize_by_esr o private address url w.library.library)

  pub library_api : Api Process D
  unfolding initialize_process terminate_process set_timeout set_logger
  library_api = record {
    set_timeout = λ seconds p. record p { library = set_timeout seconds p.library };
    set_logger = λ p. record p { logging = set_logger p.logging };
    initialize = initialize_process;
    terminate = terminate_process;
    get_error_str = λ p. p.library.error_str;
    open_db = calls.open_db;
    create_db = calls.create_db;
    has_db = calls.has_db;
    perform = calls.perform;
    swarm_status = calls.swarm_status;
  }

-- How the process ends. After `main` the destructor of `io_thread` ends it, if the thread was not
-- joined; an exception that `main` does not catch ends it too.
pub data Exit : Type 0 where
  exited : ℕ → Exit
  killed : Exit

abbrev pub exit_process : Ended Process ℕ → Exit
exit_process (returned code w) = if w.library.library.io_thread then killed else exited code
exit_process (raised what w) = killed
exit_process aborted = killed

module _ {D : Type 0} (c : Console) (o : Outside) (calls : Calls D) where
  pub run_process : (Bytes → File) → ℕ → Parsed → World Process → Exit
  unfolding main library_api
  run_process files argc args w = exit_process (main c (library_api o calls) files argc args w)

-- The process as it starts.
abbrev pub start : World Process
start = record {
  library = record { library = fresh; logging = record { the_logger = false; sinks = 0 } };
  printed = [];
}
