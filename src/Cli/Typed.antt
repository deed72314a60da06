-- ===== src/Cli/Typed.antt =====
-- bzapi-cli/main.cpp: with options of their types, a readable configuration and a library that throws
-- nothing, no command fails with an exception.
pub mod Operations
pub mod Handled
pub mod Exits
use bzapi.Base.{
  ℕ, ◌≡◌, refl, [], ◌∷◌, Bool, true, false, Option, none, some, ◌&&◌, All, arith, list_beq,
  Bool-cases, inl, inr, ◌⊎◌, list_eq, ◌==◌, if◌then◌else◌, ap, ◌∙◌, nat_beq, ◌||◌,
}
use bzapi.Base.Text.{Bytes, codes}
use bzapi.Base.Map.{Map, lookup}
use bzapi.Database.Replies.{Operation}
use bzapi.Cli.{
  World, Program, Console, Vm, Config, File, unreadable, malformed, holds, Api, Value, count,
  as_string, returned, uint64, boolean, string,
}
use bzapi.Cli.Options
use bzapi.Cli.Options.{
  description, IsStored, Conforms, is_string, is_uint64, is_boolean, uuid, command,
}
use bzapi.Cli.Handlers.{
  public_key, private_key, esr_address, ethereum_url, timeout, load_config, load_file,
  initialize_bzapi, set_config_timeout, initialize_scope, initialized, open_db, open_scope,
  check_opened, open_where_initialized, on_database, where_opened, on_text, handle_create_db,
  create_db_scope, created, create_where_initialized, or_error, handle_has_db, has_db_scope, exists,
  has_where_initialized,
}
use bzapi.Cli.Commands
use bzapi.Cli.Main.{
  bzapi_cmd_handlers, process_program_options, main, dispatch, set_verbose, processed, where_loaded,
  load_and_run, try_main, finish, Parsed, parsed, success, error_in_command_line,
}
use bzapi.Cli.Returns.{
  Returns, >>=-Returns, if-Returns, do_timing-Returns, json-Returns, as_string-Returns,
  as_uint64-Returns, as_bool-Returns, defaulted-count,
}

-- No call of the library throws or ends the process, from a state with the property `I`, and all keep it.
pub record IsTotal {S D : Type 0} (I : S → Type 0) (api : Api S D) : Type 0 where
  pub set_timeout : (seconds : ℕ) (s : S) → I s → I (api.set_timeout seconds s)
  pub set_logger : (s : S) → I s → I (api.set_logger s)
  pub initialize :
      (public private address url : Bytes) → Returns I (api.initialize public private address url)
  pub open_db : (id : Bytes) → Returns I (api.open_db id)
  pub create_db :
      (id : Bytes) (max_size : ℕ) (random_evict : Bool)
      → Returns I (api.create_db id max_size random_evict)
  pub has_db : (id : Bytes) → Returns I (api.has_db id)
  pub perform : (db : D) (op : Operation) → Returns I (api.perform db op)
  pub swarm_status : (db : D) → Returns I (api.swarm_status db)

-- The configuration has the members that are read, and a timeout that is a number or
-- null, as one that is not there.
pub record IsReadable (config : Config) : Type 0 where
  pub has_timeout : Bool
  pub is_member : config.is_member timeout ≡ some has_timeout
  pub seconds : ℕ
  pub as_uint64 : config.as_uint64 timeout ≡ some seconds
  pub public : Bytes
  pub public_is : config.as_string public_key ≡ some public
  pub private : Bytes
  pub private_is : config.as_string private_key ≡ some private
  pub address : Bytes
  pub address_is : config.as_string esr_address ≡ some address
  pub url : Bytes
  pub url_is : config.as_string ethereum_url ≡ some url

module _ {S D : Type 0} (I : S → Type 0) (c : Console) (api : Api S D) (total : IsTotal I api) where
  initialized-Returns : (b : Bool) → Returns I (initialized c api b)
  initialized-Returns true w i = (_, _, refl, i)
  initialized-Returns false w i = (_, _, refl, i)

  initialize_bzapi-Returns :
      (vm : Vm) (config : Config) → IsReadable config → Returns I (initialize_bzapi c api vm config)
  unfolding initialize_bzapi
  initialize_bzapi-Returns vm config ok =
      >>=-Returns I _ _ (json-Returns I c _ ok.has_timeout ok.is_member) (λ b.
        >>=-Returns I _ _ (timeout-Returns b) (λ u. do_timing-Returns I c vm _ _ (
          >>=-Returns I _ _ (json-Returns I c _ ok.public ok.public_is) (λ public.
            >>=-Returns I _ _ (json-Returns I c _ ok.private ok.private_is) (λ private.
              >>=-Returns I _ _ (json-Returns I c _ ok.address ok.address_is) (λ address.
                >>=-Returns I _ _ (json-Returns I c _ ok.url ok.url_is) (λ url.
                  >>=-Returns I _ _ (total.initialize public private address url)
                    initialized-Returns)))))))
    where
      timeout-Returns : (b : Bool) → Returns I (set_config_timeout c api config b)
      timeout-Returns false = λ w i. (_, _, refl, i)
      timeout-Returns true =
          >>=-Returns I _ _ (json-Returns I c _ ok.seconds ok.as_uint64)
            (λ seconds w i. (_, _, refl, total.set_timeout seconds w.library i))

-- A command line of which boost stored the options, with the database's uuid.
module _ {S D : Type 0} (I : S → Type 0) (c : Console) (api : Api S D) (total : IsTotal I api)
    (vm : Vm) (config : Config) (readable : IsReadable config) (conforms : Conforms vm)
    (with_uuid : count vm uuid ≡ true) where
  uuid-Returns : Returns I (as_string {S = S} c vm uuid)
  unfolding description lookup list_beq
  uuid-Returns =
      as_string-Returns I c vm uuid none (conforms.stored uuid is_string none refl) with_uuid

  check_opened-Returns : (db : Option D) → Returns I (check_opened c api db)
  check_opened-Returns none w i = (_, _, refl, i)
  check_opened-Returns (some db) w i = (_, _, refl, i)

  open_db-Returns : Returns I (open_db c api vm config)
  unfolding open_db
  open_db-Returns =
      >>=-Returns I _ _ (initialize_bzapi-Returns I c api total vm config readable) opens
    where
      opens : (ok : Bool) → Returns I (open_where_initialized c api vm ok)
      opens true = do_timing-Returns I c vm _ _ (
          >>=-Returns I _ _ uuid-Returns
            (λ id. >>=-Returns I _ _ (total.open_db id) check_opened-Returns))
      opens false = λ w i. (_, _, refl, i)

  pub on_database-Returns :
      (op_name : Bytes) (text : D → Program S Bytes)
      → ((db : D) → Returns I (text db))
      → Returns I (on_database c api vm config op_name text)
  unfolding on_database
  on_database-Returns op_name text texts = >>=-Returns I _ _ open_db-Returns logs
    where
      logs : (db : Option D) → Returns I (where_opened c api vm op_name text db)
      logs none = λ w i. (_, _, refl, i)
      logs (some db) =
          do_timing-Returns I c vm _ _ (>>=-Returns I _ _ (texts db) (λ t w i. (_, _, refl, i)))

  or_error-Returns : (b : Bool) → Returns I (or_error c api b)
  or_error-Returns true w i = (_, _, refl, i)
  or_error-Returns false w i = (_, _, refl, i)

  size-IsStored : IsStored vm Options.create_db_max_size is_uint64 (some (uint64 0))
  unfolding description lookup list_beq
  size-IsStored = conforms.stored Options.create_db_max_size is_uint64 _ refl

  evict-IsStored : IsStored vm Options.create_db_random_evict is_boolean (some (boolean false))
  unfolding description lookup list_beq
  evict-IsStored = conforms.stored Options.create_db_random_evict is_boolean _ refl

  pub handle_create_db-Returns : Returns I (handle_create_db c api vm config)
  unfolding handle_create_db
  handle_create_db-Returns =
      >>=-Returns I _ _ (initialize_bzapi-Returns I c api total vm config readable)
        (λ ok. >>=-Returns I _ _ (creates ok) or_error-Returns)
    where
      answers : (id : Bytes) (db : Option D) → Returns I (created c api id db)
      answers id none w i = (_, _, refl, i)
      answers id (some db) w i = (_, _, refl, i)

      creates : (ok : Bool) → Returns I (create_where_initialized c api vm ok)
      creates false = λ w i. (_, _, refl, i)
      creates true = do_timing-Returns I c vm _ _ (
          >>=-Returns I _ _ uuid-Returns (λ id.
            >>=-Returns I _ _
              (as_uint64-Returns I c vm _ _ size-IsStored (defaulted-count vm _ _ _ size-IsStored))
              (λ max_size.
                >>=-Returns I _ _
                  (as_bool-Returns I c vm _ _ evict-IsStored
                    (defaulted-count vm _ _ _ evict-IsStored))
                  (λ random_evict.
                    >>=-Returns I _ _ (total.create_db id max_size random_evict) (answers id)))))

  pub handle_has_db-Returns : Returns I (handle_has_db c api vm config)
  unfolding handle_has_db
  handle_has_db-Returns =
      >>=-Returns I _ _ (initialize_bzapi-Returns I c api total vm config readable)
        (λ ok. >>=-Returns I _ _ (looks ok) or_error-Returns)
    where
      answers : (id : Bytes) (b : Bool) → Returns I (exists c api id b)
      answers id true w i = (_, _, refl, i)
      answers id false w i = (_, _, refl, i)

      looks : (ok : Bool) → Returns I (has_where_initialized c api vm ok)
      looks false = λ w i. (_, _, refl, i)
      looks true =
          do_timing-Returns I c vm _ _ (
            >>=-Returns I _ _ uuid-Returns (λ id. >>=-Returns I _ _ (total.has_db id) (answers id)))
