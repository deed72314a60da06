-- ===== src/Cli/Main.antt =====
-- bzapi-cli/main.cpp: the table of commands, and `main` with its exit code.
use bzapi.Base.{
  ℕ, [], ◌∷◌, ◌++◌, Bool, true, false, Option, none, some, if◌then◌else◌, ◌||◌, nat_beq, list_eq,
}
use bzapi.Base.Text.{Bytes, codes}
use bzapi.Base.Map.{Map, lookup}
use bzapi.Cli.{
  cout, cerr, Ended, returned, raised, aborted, Program, ◌>>=◌, pure, emit, raise, modify, print,
  Console, Vm, Config, File, Api, endl, count, as_string,
}
use bzapi.Cli.Options.{help, verbose, command, uuid, config_option}
use bzapi.Cli.Handlers.{load_config, refuse, handle_create_db, handle_has_db}
use bzapi.Cli.Commands.{
  handle_status, handle_writer, handle_add_writer, handle_remove_writer, handle_create, handle_read,
  handle_qread, handle_update, handle_delete, handle_has, handle_ttl, handle_persist, handle_expire,
  handle_keys, handle_size,
}

abbrev pub success : ℕ
success = 0

abbrev pub error_in_command_line : ℕ
error_in_command_line = 1

abbrev pub error_unhandled_exception : ℕ
error_unhandled_exception = 2

-- A command line that boost parses, or what its exception says.
pub data Parsed : Type 0 where
  parsed : Vm → Parsed
  rejected : Bytes → Parsed

module _ {S D : Type 0} (c : Console) (api : Api S D) where
  unfoldable pub bzapi_cmd_handlers : Map Bytes (Vm → Config → Program S Bool)
  unfolding handle_status handle_create_db handle_has_db handle_writer handle_add_writer
      handle_remove_writer handle_create handle_read handle_qread handle_update handle_delete
      handle_has handle_ttl handle_persist handle_expire handle_keys handle_size
  bzapi_cmd_handlers =
      (codes "status", handle_status c api)
      ∷ (codes "create_db", handle_create_db c api)
      ∷ (codes "has_db", handle_has_db c api)
      ∷ (codes "writers", handle_writer c api)
      ∷ (codes "add_writer", handle_add_writer c api)
      ∷ (codes "remove_writer", handle_remove_writer c api)
      ∷ (codes "create", handle_create c api)
      ∷ (codes "read", handle_read c api)
      ∷ (codes "qread", handle_qread c api)
      ∷ (codes "update", handle_update c api)
      ∷ (codes "delete", handle_delete c api)
      ∷ (codes "has", handle_has c api)
      ∷ (codes "ttl", handle_ttl c api)
      ∷ (codes "persist", handle_persist c api)
      ∷ (codes "expire", handle_expire c api)
      ∷ (codes "keys", handle_keys c api)
      ∷ (codes "size", handle_size c api)
      ∷ []

  abbrev pub set_verbose : Bool → Program S (Unit {0})
  set_verbose true = modify api.set_logger
  set_verbose false = pure tt

  abbrev pub dispatch : Bytes → Option (Vm → Config → Program S Bool) → Vm → Config → Program S Bool
  dispatch name (some handler) vm config = handler vm config
  dispatch name none vm config = refuse (codes "Unknown command: " ++ name)

  unfoldable pub process_program_options : Vm → Config → Program S Bool
  unfolding bzapi_cmd_handlers count as_string lookup
  process_program_options vm config = do
    _ ← set_verbose (count vm verbose)
    name ← as_string c vm command
    dispatch name (lookup name bzapi_cmd_handlers) vm config

  -- A result of the `try` block: a code to return, or none where it is left at its end.
  abbrev pub processed : Bool → Program S (Option ℕ)
  processed true = do _ ← modify api.terminate; pure (some success)
  processed false = pure none

  abbrev pub missing : Bytes → Program S (Option ℕ)
  missing message = do
    _ ← emit (cerr (message ++ c.description ++ endl))
    pure (some error_in_command_line)

  unfoldable pub run_command : Vm → Config → Program S (Option ℕ)
  unfolding process_program_options
  run_command vm config = do ok ← process_program_options vm config; processed ok

  abbrev pub where_loaded : Vm → Option Config → Program S (Option ℕ)
  unfolding run_command count
  where_loaded vm none = pure (some error_in_command_line)
  where_loaded vm (some config) =
      if count vm uuid
      then (if count vm command
          then run_command vm config
          else missing (codes "Error: command not specified\n"))
      else missing (codes "Error: uuid not specified\n")

  abbrev pub load_and_run : (Bytes → File) → Vm → Program S (Option ℕ)
  unfolding as_string load_config
  load_and_run files vm = do
    filename ← as_string c vm config_option
    config ← load_config files filename
    where_loaded vm config

  -- `argc` is the number of arguments, the program's name included.
  abbrev pub try_main : (Bytes → File) → ℕ → Parsed → Program S (Option ℕ)
  unfolding count
  try_main files argc (rejected what) = raise what
  try_main files argc (parsed vm) =
      if count vm help || nat_beq argc 1
      then (do _ ← emit (cout c.description); pure (some success))
      else load_and_run files vm

  -- The `catch` clause, and what follows the `try` block.
  abbrev pub finish : Ended S (Option ℕ) → Ended S ℕ
  finish (returned (some code) w) = returned code w
  finish (returned none w) =
      returned error_in_command_line (record w { library = api.terminate w.library })
  finish (raised what w) =
      let said =
        print
          (cerr
            (codes "Unhandled Exception: " ++ what ++ codes ", application will now exit" ++ endl))
          w in
      let shown = print (cerr c.description) said in
      returned error_unhandled_exception (record shown { library = api.terminate shown.library })
  finish aborted = aborted

  unfoldable pub main : (Bytes → File) → ℕ → Parsed → Program S ℕ
  main files argc args w = finish (try_main files argc args w)
