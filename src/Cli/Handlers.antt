-- ===== src/Cli/Handlers.antt =====
-- bzapi-cli/main.cpp: reading the configuration, opening a database, and a handler for each command.
use bzapi.Base.{◌++◌, Bool, true, false, Option, none, some}
use bzapi.Base.Text.{Bytes, codes}
use bzapi.Database.Replies.{Operation}
use bzapi.Cli.{
  cerr, Program, ◌>>=◌, pure, emit, modify, reads, Console, Vm, Config, File, unreadable, malformed,
  holds, Api, endl, log, as_string, as_uint64, as_bool, json, do_timing,
}
use bzapi.Cli.Options.{create_db_max_size, create_db_random_evict, uuid}

abbrev pub public_key : Bytes
public_key = codes "public_key"

abbrev pub private_key : Bytes
private_key = codes "private_key"

abbrev pub esr_address : Bytes
esr_address = codes "esr_address"

abbrev pub ethereum_url : Bytes
ethereum_url = codes "ethereum_url"

abbrev pub timeout : Bytes
timeout = codes "timeout"

-- The configuration, or `none` where it returns false.
abbrev pub load_file : {S : Type 0} → Bytes → File → Program S (Option Config)
load_file filename (unreadable why) = do
  _ ← emit (
      cerr (
        codes "Failed to read config file:  "
        ++ filename
        ++ codes " ("
        ++ why
        ++ codes ")"
        ++ endl))
  pure none
load_file filename (malformed why) = do
  _ ← emit (cerr (codes "Failed to parse config! (" ++ why ++ codes ")" ++ endl))
  pure none
load_file filename (holds config) = pure (some config)

unfoldable pub load_config : {S : Type 0} → (Bytes → File) → Bytes → Program S (Option Config)
load_config files filename = load_file filename (files filename)

-- A message on the standard error, and the handler returns false.
abbrev pub refuse : {S : Type 0} → Bytes → Program S Bool
refuse message = do _ ← emit (cerr (message ++ endl)); pure false

module _ {S D : Type 0} (c : Console) (api : Api S D) where
  abbrev pub set_config_timeout : Config → Bool → Program S (Unit {0})
  set_config_timeout config true = do
    seconds ← json c (config.as_uint64 timeout)
    modify (api.set_timeout seconds)
  set_config_timeout config false = pure tt

  abbrev pub print_error : Program S (Unit {0})
  print_error = do why ← reads api.get_error_str; emit (cerr (why ++ endl))

  abbrev pub initialized : Bool → Program S Bool
  initialized true = pure true
  initialized false = do why ← reads api.get_error_str; refuse (codes "initialize failed: " ++ why)

  abbrev pub initialize_scope : Config → Program S Bool
  initialize_scope config = do
    public ← json c (config.as_string public_key)
    private ← json c (config.as_string private_key)
    address ← json c (config.as_string esr_address)
    url ← json c (config.as_string ethereum_url)
    ok ← api.initialize public private address url
    initialized ok

  unfoldable pub initialize_bzapi : Vm → Config → Program S Bool
  unfolding do_timing
  initialize_bzapi vm config = do
    has_timeout ← json c (config.is_member timeout)
    _ ← set_config_timeout config has_timeout
    do_timing c vm (codes "initialize") (initialize_scope config)

  abbrev pub check_opened : Option D → Program S (Option D)
  check_opened none = do _ ← print_error; pure none
  check_opened (some db) = pure (some db)

  abbrev pub open_scope : Vm → Program S (Option D)
  open_scope vm = do id ← as_string c vm uuid; db ← api.open_db id; check_opened db

  abbrev pub open_where_initialized : Vm → Bool → Program S (Option D)
  open_where_initialized vm true = do_timing c vm (codes "open_db") (open_scope vm)
  open_where_initialized vm false = pure none

  unfoldable pub open_db : Vm → Config → Program S (Option D)
  unfolding initialize_bzapi as_string do_timing
  open_db vm config = do ok ← initialize_bzapi vm config; open_where_initialized vm ok

  -- A command on a database that opens: what the method returns is logged.
  abbrev pub log_text : Program S Bytes → Program S Bool
  log_text text = do t ← text; _ ← log t; pure true

  abbrev pub where_opened : Vm → Bytes → (D → Program S Bytes) → Option D → Program S Bool
  where_opened vm op_name text none = pure false
  where_opened vm op_name text (some db) = do_timing c vm op_name (log_text (text db))

  unfoldable pub on_database : Vm → Config → Bytes → (D → Program S Bytes) → Program S Bool
  unfolding open_db do_timing
  on_database vm config op_name text = do db ← open_db vm config; where_opened vm op_name text db

  -- A method whose only argument is an option's text.
  abbrev pub on_text : Vm → Bytes → (Bytes → Operation) → D → Program S Bytes
  on_text vm name op db = do s ← as_string c vm name; api.perform db (op s)

  abbrev pub created : Bytes → Option D → Program S Bool
  created id (some db) = do _ ← log (codes "Database: " ++ id ++ codes " created"); pure true
  created id none = do _ ← log (codes "Database: " ++ id ++ codes " creation failed"); pure false

  abbrev pub create_db_scope : Vm → Program S Bool
  create_db_scope vm = do
    id ← as_string c vm uuid
    max_size ← as_uint64 c vm create_db_max_size
    random_evict ← as_bool c vm create_db_random_evict
    db ← api.create_db id max_size random_evict
    created id db

  -- After the scope of the timer: false prints the error.
  abbrev pub or_error : Bool → Program S Bool
  or_error true = pure true
  or_error false = do _ ← print_error; pure false

  abbrev pub create_where_initialized : Vm → Bool → Program S Bool
  create_where_initialized vm true = do_timing c vm (codes "create_db") (create_db_scope vm)
  create_where_initialized vm false = pure false

  unfoldable pub handle_create_db : Vm → Config → Program S Bool
  unfolding initialize_bzapi as_string as_uint64 as_bool do_timing
  handle_create_db vm config = do
    ok ← initialize_bzapi vm config
    done ← create_where_initialized vm ok
    or_error done

  abbrev pub exists : Bytes → Bool → Program S Bool
  exists id true = do _ ← log (codes "Database: " ++ id ++ codes " exists"); pure true
  exists id false = do _ ← log (codes "Database: " ++ id ++ codes " does not exist"); pure false

  abbrev pub has_db_scope : Vm → Program S Bool
  has_db_scope vm = do id ← as_string c vm uuid; found ← api.has_db id; exists id found

  abbrev pub has_where_initialized : Vm → Bool → Program S Bool
  has_where_initialized vm true = do_timing c vm (codes "has_db") (has_db_scope vm)
  has_where_initialized vm false = pure false

  unfoldable pub handle_has_db : Vm → Config → Program S Bool
  unfolding initialize_bzapi as_string do_timing
  handle_has_db vm config = do
    ok ← initialize_bzapi vm config
    done ← has_where_initialized vm ok
    or_error done
