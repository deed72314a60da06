-- ===== src/Examples/Commands.antt =====
-- The command line `bzapi-cli --command read --uuid db --read_key key`, with a library that answers
-- and with one that cannot be initialized.
use bzapi.Base.{ℕ, ◌≡◌, ◌⊎◌, refl, subst, [], ◌∷◌, true, false, none, some, list_beq}
use bzapi.Base.Text.{Bytes, codes}
use bzapi.Base.Map.{lookup}
use bzapi.Cli
use bzapi.Cli.{
  World, returned, Program, pure, Console, Vm, Config, File, unreadable, holds, Api, string, uint64,
  boolean, count, stop_timer, print, cout, endl,
}
use bzapi.Cli.Options.{Conforms, present, absent, description, description-Conforms}
use bzapi.Cli.Handlers.{initialize_bzapi, open_db}
use bzapi.Cli.Commands.{handle_read}
use bzapi.Cli.Main.{main, parsed, process_program_options, bzapi_cmd_handlers}
use bzapi.Cli.Typed.{IsTotal, IsReadable}
use bzapi.Cli.Typed.Exits.{main-code}
use bzapi.Cli.Performs.{Requests, told, process_program_options-performs}
use bzapi.Cli.Failures.{arguments}
use bzapi.Cli.Process.{Calls, library_api, run_process, start, killed}
use bzapi.SwarmFactory.Discovery.{Esr}
use bzapi.Base.Outcome.{Outcome, done, threw}
use bzapi.Cli.Process.Failed.{run_process-killed, IsCommand}
use bzapi.Library.{initialize_by_esr, Outside}
use bzapi.Examples.Entries.{outside, left_behind}

abbrev console : Console
console = record {
  elapsed = λ op_name. codes "5";
  description = codes "bzapi options";
  bad_any_cast = codes "bad any_cast";
  json_error = codes "not convertible";
}

abbrev read_command : Vm
read_command =
    (codes "config", string (codes "bzapi-cli.json"))
    ∷ (codes "command", string (codes "read"))
    ∷ (codes "uuid", string (codes "db"))
    ∷ (codes "create_db_max_size", uint64 0)
    ∷ (codes "create_db_random_evict", boolean false)
    ∷ (codes "create_expire", uint64 0)
    ∷ (codes "read_key", string (codes "key"))
    ∷ []

read_command-Conforms : Conforms read_command
unfolding description lookup list_beq
read_command-Conforms = description-Conforms read_command (
  absent refl refl,
  (
    absent refl refl,
    (
      present (string (codes "bzapi-cli.json")) refl refl,
      (
        present (string (codes "read")) refl refl,
        (
          absent refl refl,
          (
            present (string (codes "db")) refl refl,
            (
              present (uint64 0) refl refl,
              (
                present (boolean false) refl refl,
                (
                  absent refl refl,
                  (
                    absent refl refl,
                    (
                      absent refl refl,
                      (
                        absent refl refl,
                        (
                          present (uint64 0) refl refl,
                          (
                            present (string (codes "key")) refl refl,
                            (
                              absent refl refl,
                              (
                                absent refl refl,
                                (
                                  absent refl refl,
                                  (
                                    absent refl refl,
                                    (
                                      absent refl refl,
                                      (
                                        absent refl refl,
                                        (
                                          absent refl refl,
                                          (absent refl refl, (absent refl refl, tt)),
                                        ),
                                      ),
                                    ),
                                  ),
                                ),
                              ),
                            ),
                          ),
                        ),
                      ),
                    ),
                  ),
                ),
              ),
            ),
          ),
        ),
      ),
    ),
  ),
)

-- No timeout; every text is "x".
abbrev config : Config
config = record {
  is_member = λ name. some false;
  as_string = λ name. some (codes "x");
  as_uint64 = λ name. some 0;
}

abbrev config-IsReadable : IsReadable config
config-IsReadable = record {
  has_timeout = false;
  is_member = refl;
  seconds = 0;
  as_uint64 = refl;
  public = codes "x";
  public_is = refl;
  private = codes "x";
  private_is = refl;
  address = codes "x";
  address_is = refl;
  url = codes "x";
  url_is = refl;
}

abbrev files : Bytes → File
files name = holds config

-- A library that counts its operations; its one database is 1.
abbrev counting : Api ℕ ℕ
counting = record {
  set_timeout = λ seconds n. n;
  set_logger = λ n. n;
  initialize = λ public private address url. pure true;
  terminate = λ n. n;
  get_error_str = λ n. [];
  open_db = λ id. pure (some 1);
  create_db = λ id max_size random_evict. pure (some 1);
  has_db = λ id. pure true;
  perform = λ db op. pure (codes "{}");
  swarm_status = λ db. pure (codes "{}");
}

-- Anything may be the state.
abbrev AnyState : ℕ → Type 0
AnyState n = Unit {0}

counting-IsTotal : IsTotal AnyState counting
counting-IsTotal = record {
  set_timeout = λ seconds n i. i;
  set_logger = λ n i. i;
  initialize = λ public private address url w i. (true, w, refl, i);
  open_db = λ id w i. (some 1, w, refl, i);
  create_db = λ id max_size random_evict w i. (some 1, w, refl, i);
  has_db = λ id w i. (true, w, refl, i);
  perform = λ db op w i. (codes "{}", w, refl, i);
  swarm_status = λ db w i. (codes "{}", w, refl, i);
}

abbrev quiet : World ℕ
quiet = record { library = 0; printed = [] }

config-readable : (name : Bytes) (x : Config) → files name ≡ holds x → IsReadable x
config-readable name x e = subst IsReadable (holds-injective e) config-IsReadable
  where
    holds-injective : {x y : Config} → holds x ≡ holds y → x ≡ y
    holds-injective e = cc

main-code_example :
    (code : ℕ) × (w1 : World ℕ) × (main console counting files 4 (parsed read_command) quiet
      ≡ returned code w1)
    × ((code ≡ 0) ⊎ (code ≡ 1))
    × AnyState w1.library
main-code_example =
    main-code AnyState AnyState console counting counting-IsTotal (λ n i. i) read_command
      read_command-Conforms files config-readable 4 quiet tt tt

process_program_options-performs_example :
    process_program_options console counting read_command config quiet
    ≡ told console counting read_command config (codes "read") (codes "{}") quiet
unfolding lookup list_beq count open_db initialize_bzapi Cli.do_timing Cli.as_string
process_program_options-performs_example =
    process_program_options-performs console counting read_command config 1 (codes "{}") quiet quiet
      quiet quiet (Requests.read (codes "key") refl) refl refl refl refl

-- The calls are never reached.
abbrev no_calls : Calls ℕ
no_calls = record {
  open_db = λ id. pure none;
  create_db = λ id max_size random_evict. pure none;
  has_db = λ id. pure false;
  perform = λ db op. pure [];
  swarm_status = λ db. pure [];
}

read_command-IsCommand :
    IsCommand console outside no_calls config config-IsReadable read_command files 4
unfolding lookup list_beq count bzapi_cmd_handlers arguments
read_command-IsCommand = record {
  no_help = refl;
  filename = codes "bzapi-cli.json";
  config_is = refl;
  file_is = refl;
  with_uuid = refl;
  name = codes "read";
  command_is = refl;
  handler = handle_read console (library_api outside no_calls);
  handler_is = refl;
  with_arguments = (refl, tt);
}

run_process-killed_example :
    run_process console outside no_calls files 4 (parsed read_command) start ≡ killed
unfolding initialize_by_esr
run_process-killed_example =
    run_process-killed console outside no_calls config config-IsReadable read_command files 4
      read_command-IsCommand left_behind refl

-- An ESR without swarms.
abbrev empty_esr : Esr
empty_esr = record {
  get_swarm_ids = λ address url. done [];
  get_peer_ids = λ id address url. done [];
  get_peer_info = λ id node address url. threw;
}

abbrev answering : Outside
answering = record { lexical_cast = λ s. none; esr = empty_esr }
