-- ===== src/Cli/Process/Failed.antt =====
-- bzapi-cli/main.cpp with library/library.cpp: the process ends abnormally where `initialize` fails.
use bzapi.Base.{
  ℕ, ◌≡◌, refl, sym, ap, ◌∙◌, subst, ◌++◌, Bool, true, false, Option, none, some, ◌||◌,
  if◌then◌else◌, if-true, if-false, nat_beq, list_eq,
}
use bzapi.Base.Text.{Bytes, codes}
use bzapi.Base.Map.{lookup}
use bzapi.Library.{Library, Outside, fresh, set_timeout, initialize_by_esr, terminate}
use bzapi.Library
use bzapi.Library.Lifecycle.{IsLeft, initialize_by_esr-IsLeft}
use bzapi.Library.Logging.{Process, logging_after_initialize, terminate_process}
use bzapi.Cli.{
  World, returned, continue, Program, Console, Vm, Config, File, holds, Value, endl, print, cerr,
  count, as_string, cast_string, stop_timer, do_timing, Api,
}
use bzapi.Cli.Options.{help, verbose, command, uuid, config_option}
use bzapi.Cli.Handlers.{
  set_config_timeout, initialize_scope, initialize_bzapi, load_config, load_file,
}
use bzapi.Cli.Typed.{IsReadable}
use bzapi.Cli.Failures.{needed, HasAll, handler-Fails}
use bzapi.Cli.Main.{
  bzapi_cmd_handlers, process_program_options, set_verbose, dispatch, run_command, where_loaded,
  load_and_run, try_main, processed, finish, main, parsed, error_in_command_line,
}
use bzapi.Cli.Process.{
  Calls, library_api, initialize_process, set_library, start, killed, exit_process, run_process,
}

module _ {D : Type 0} (c : Console) (o : Outside) (calls : Calls D) (config : Config)
    (readable : IsReadable config) where
  -- The library after the timeout of the configuration was set.
  abbrev pub configured : Library → Library
  configured l = if readable.has_timeout then set_timeout readable.seconds l else l

  abbrev pub configured_world : World Process → World Process
  configured_world w = record w {
    library = record w.library { library = configured w.library.library };
  }

  set_config_timeout-returned :
      (w : World Process)
      → set_config_timeout c (library_api o calls) config readable.has_timeout w
        ≡ returned tt (configured_world w)
  unfolding library_api
  set_config_timeout-returned w = by_case readable.has_timeout
    where
      by_case :
          (b : Bool)
          → set_config_timeout c (library_api o calls) config b w
            ≡ returned tt (record w {
              library = record w.library {
                library =
                    if b then set_timeout readable.seconds w.library.library else w.library.library;
              };
            })
      by_case true = rw readable.as_uint64 refl
      by_case false = refl

  abbrev failed_world : World Process → Library → World Process
  failed_world w l =
      print (cerr (codes "initialize failed: " ++ l.error_str ++ endl))
        (set_library w l (logging_after_initialize w.library.library w.library.logging))

  initialize_scope-failed :
      (w : World Process) (l : Library)
      → initialize_by_esr o readable.private readable.address readable.url w.library.library
        ≡ Library.returned false l
      → initialize_scope c (library_api o calls) config w ≡ returned false (failed_world w l)
  unfolding library_api initialize_process
  initialize_scope-failed w l e =
      rw (readable.public_is, readable.private_is, readable.address_is, readable.url_is, e) refl

  stop_timer-library :
      {A : Type 0} (b : Bool) (op_name : Bytes) (a : A) (w : World Process)
      → (w1 : World Process) × (stop_timer c b op_name (returned a w) ≡ returned a w1)
        × (w1.library ≡ w.library)
  stop_timer-library true op_name a w = (_, refl, refl)
  stop_timer-library false op_name a w = (_, refl, refl)

  initialize_bzapi-failed :
      (vm : Vm) (w : World Process) (l : Library)
      → initialize_by_esr o readable.private readable.address readable.url
          (configured w.library.library)
        ≡ Library.returned false l
      → (w1 : World Process) × (initialize_bzapi c (library_api o calls) vm config w
          ≡ returned false w1)
        × (w1.library.library ≡ l)
  unfolding initialize_bzapi do_timing
  initialize_bzapi-failed vm w l e =
      let api : Api Process D = library_api o calls in
      let timed : Program Process Bool =
        λ w. do_timing c vm (codes "initialize") (initialize_scope c api config) w in
      let (w1, stopped, same) =
        stop_timer-library (count vm (codes "timing")) (codes "initialize") false
          (failed_world (configured_world w) l) in
      (
        w1,
        rw readable.is_member (ap (λ r. continue r (λ u. timed)) (set_config_timeout-returned w))
            ∙ ap (stop_timer c (count vm (codes "timing")) (codes "initialize"))
                (initialize_scope-failed (configured_world w) l e)
            ∙ stopped,
        ap (λ (p : Process). p.library) same,
      )

  set_verbose-library :
      (b : Bool) (w : World Process)
      → (w1 : World Process) × (set_verbose c (library_api o calls) b w ≡ returned tt w1)
        × (w1.library.library ≡ w.library.library)
  unfolding library_api
  set_verbose-library true w = (_, refl, refl)
  set_verbose-library false w = (_, refl, refl)

  -- A thread that is left is left by `terminate` too.
  left-killed :
      (code : ℕ) (w : World Process)
      → IsLeft o w.library.library
      → exit_process (returned code (record w { library = terminate_process w.library })) ≡ killed
  unfolding terminate_process terminate
  left-killed code w (thread, not_init) =
      rw (not_init, exit_process) (rw (thread, exit_process) refl)

  -- What is given on the command line: a command of the table with its arguments, a uuid, and a
  -- configuration file.
  pub record IsCommand (vm : Vm) (files : Bytes → File) (argc : ℕ) : Type 1 where
    pub no_help : (count vm help || nat_beq argc 1) ≡ false
    pub filename : Bytes
    pub config_is : lookup config_option vm ≡ some (Value.string filename)
    pub file_is : files filename ≡ holds config
    pub with_uuid : count vm uuid ≡ true
    pub name : Bytes
    pub command_is : lookup command vm ≡ some (Value.string name)
    pub handler : Vm → Config → Program Process Bool
    pub handler_is : lookup name (bzapi_cmd_handlers c (library_api o calls)) ≡ some handler
    pub with_arguments : HasAll c (library_api o calls) vm config (needed name)

  module _ (vm : Vm) (files : Bytes → File) (argc : ℕ) (given : IsCommand vm files argc)
      (l : Library)
      (fails : initialize_by_esr o readable.private readable.address readable.url (configured fresh)
        ≡ Library.returned false l) where
    process-fails :
        (w : World Process) × (process_program_options c (library_api o calls) vm config start
          ≡ returned false w)
        × (w.library.library ≡ l)
    unfolding process_program_options as_string
    process-fails =
        let api : Api Process D = library_api o calls in
        let (wv, verbosed, same) = set_verbose-library (count vm verbose) start in
        let (w1, failed, left) = initialize_bzapi-failed vm wv l (
          subst
            (λ x.
              initialize_by_esr o readable.private readable.address readable.url (configured x)
              ≡ Library.returned false l)
            (sym same) fails) in
        let (w2, gives_up, kept) =
          handler-Fails c api vm config given.name given.handler given.handler_is
            given.with_arguments wv w1 failed in
        let chosen : Bytes → Program Process Bool =
          λ n. dispatch c api n (lookup n (bzapi_cmd_handlers c api)) vm config in
        let named : Program Process Bool =
          λ w. continue (cast_string c (lookup command vm) w) chosen in
        (
          w2,
          ap (λ r. continue r (λ u. named)) verbosed
              ∙ ap (λ v. continue (cast_string c v wv) chosen) given.command_is
              ∙ ap (λ h. dispatch c api given.name h vm config wv) given.handler_is
              ∙ gives_up,
          ap (λ (p : Process). p.library) kept ∙ left,
        )

    configured-fresh :
        (b : Bool)
        → (let l' = if b then set_timeout readable.seconds fresh else fresh in
            (l'.initialized ≡ false) × (l'.io_thread ≡ false))
    unfolding set_timeout
    configured-fresh true = (refl, refl)
    configured-fresh false = (refl, refl)

    process-IsLeft : IsLeft o l
    process-IsLeft =
        let (not_yet, no_thread) = configured-fresh readable.has_timeout in
        initialize_by_esr-IsLeft o readable.private readable.address readable.url (configured fresh)
          not_yet no_thread fails

    command-count : count vm command ≡ true
    unfolding count
    command-count = rw given.command_is refl

    try_main-fails :
        (w : World Process) × (try_main c (library_api o calls) files argc (parsed vm) start
          ≡ returned none w)
        × (w.library.library ≡ l)
    unfolding run_command as_string load_config
    try_main-fails =
        let api : Api Process D = library_api o calls in
        let (w, processed_is, same) = process-fails in
        let loaded : Option Config → Program Process (Option ℕ) = where_loaded c api vm in
        let load : Bytes → Program Process (Option ℕ) =
          λ n w. continue (load_file n (files n) w) loaded in
        (
          w,
          ap (λ (m : Program Process (Option ℕ)). m start)
                (if-false _ (load_and_run c api files vm) _ given.no_help)
              ∙ ap (λ v. continue (cast_string c v start) load) given.config_is
              ∙ ap (λ f. continue (load_file given.filename f start) loaded) given.file_is
              ∙ ap (λ (m : Program Process (Option ℕ)). m start) (if-true _ _ _ given.with_uuid)
              ∙ ap (λ (m : Program Process (Option ℕ)). m start) (if-true _ _ _ command-count)
              ∙ ap (λ r. continue r (processed c api)) processed_is,
          same,
        )

    -- On a process that starts, with a command of the table, its arguments, a uuid and a readable
    -- configuration: when `initialize` returns false (the ESR's calls threw), the process does not
    -- exit with a code. `terminate` does nothing, and the
    -- destructor of the thread that is left ends the process.
    pub run_process-killed : run_process c o calls files argc (parsed vm) start ≡ killed
    unfolding run_process main
    run_process-killed =
        let (w, e, same) = try_main-fails in
        ap (λ r. exit_process (finish c (library_api o calls) r)) e
        ∙ left-killed error_in_command_line w (subst (IsLeft o) (sym same) process-IsLeft)
