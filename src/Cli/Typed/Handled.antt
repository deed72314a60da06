-- ===== src/Cli/Typed/Handled.antt =====
-- bzapi-cli/main.cpp: each command of the table returns.
use bzapi.Base.{◌≡◌, refl, ◌++◌, Bool, true, false, Option, none, some, All, list_beq, list_eq}
use bzapi.Base.Text.{Bytes, codes}
use bzapi.Base.Map.{lookup, lookup-Holds}
use bzapi.Database.Replies.{Operation}
use bzapi.Cli.{Program, Console, Vm, Config, Api, count}
use bzapi.Cli.Options.{description, Conforms, is_string, uuid, command, verbose}
use bzapi.Cli.Commands
use bzapi.Cli.Main.{bzapi_cmd_handlers, process_program_options, dispatch, set_verbose}
use bzapi.Cli.Returns.{Returns, >>=-Returns, as_string-Returns}
use bzapi.Cli.Typed.{IsTotal, IsReadable, handle_create_db-Returns, handle_has_db-Returns}
use bzapi.Cli.Typed.Operations.{
  refuse-Returns, handle_add_writer-Returns, handle_create-Returns, handle_delete-Returns,
  handle_expire-Returns, handle_has-Returns, handle_persist-Returns, handle_qread-Returns,
  handle_read-Returns, handle_remove_writer-Returns, handle_ttl-Returns, handle_update-Returns,
  opened-Returns,
}

module _ {S D : Type 0} (I : S → Type 0) (c : Console) (api : Api S D) (total : IsTotal I api)
    (vm : Vm) (config : Config) (readable : IsReadable config) (conforms : Conforms vm)
    (with_uuid : count vm uuid ≡ true) where
  handlers-Returns : All (λ e. Returns I (e.1 vm config)) (bzapi_cmd_handlers c api)
  unfolding bzapi_cmd_handlers Commands.handle_status Commands.handle_writer Commands.handle_keys
      Commands.handle_size
  handlers-Returns = (
    opened-Returns I c api total vm config readable conforms with_uuid _ _ total.swarm_status,
    (
      handle_create_db-Returns I c api total vm config readable conforms with_uuid,
      (
        handle_has_db-Returns I c api total vm config readable conforms with_uuid,
        (
          opened-Returns I c api total vm config readable conforms with_uuid _ _
              (λ db. total.perform db Operation.writers),
          (
            (handle_add_writer-Returns I c api total vm config readable conforms with_uuid),
            (
              (handle_remove_writer-Returns I c api total vm config readable conforms with_uuid),
              (
                (handle_create-Returns I c api total vm config readable conforms with_uuid),
                (
                  (handle_read-Returns I c api total vm config readable conforms with_uuid),
                  (
                    (handle_qread-Returns I c api total vm config readable conforms with_uuid),
                    (
                      (handle_update-Returns I c api total vm config readable conforms with_uuid),
                      (
                        (handle_delete-Returns I c api total vm config readable conforms with_uuid),
                        (
                          (handle_has-Returns I c api total vm config readable conforms with_uuid),
                          (
                            (handle_ttl-Returns I c api total vm config readable conforms
                                with_uuid),
                            (
                              (handle_persist-Returns I c api total vm config readable conforms
                                  with_uuid),
                              (
                                (handle_expire-Returns I c api total vm config readable conforms
                                    with_uuid),
                                (
                                  opened-Returns I c api total vm config readable conforms with_uuid
                                      _ _ (λ db. total.perform db Operation.keys),
                                  (
                                    opened-Returns I c api total vm config readable conforms
                                        with_uuid _ _ (λ db. total.perform db Operation.size),
                                    tt,
                                  ),
                                ),
                              ),
                            ),
                          ),
                        ),
                      ),
                    ),
                  ),
                ),
              ),
            ),
          ),
        ),
      ),
    ),
  )

  pub process_program_options-Returns :
      count vm command ≡ true → Returns I (process_program_options c api vm config)
  unfolding process_program_options description lookup list_beq
  process_program_options-Returns with_command =
      >>=-Returns I _ _ (verbose-Returns (count vm verbose)) (λ u.
        >>=-Returns I _ _
          (as_string-Returns I c vm command none (conforms.stored command is_string none refl)
            with_command)
          (λ name. dispatches name (lookup name (bzapi_cmd_handlers c api)) refl))
    where
      verbose-Returns : (b : Bool) → Returns I (set_verbose c api b)
      verbose-Returns true w i = (_, _, refl, total.set_logger w.library i)
      verbose-Returns false w i = (_, _, refl, i)

      dispatches :
          (name : Bytes) (o : Option (Vm → Config → Program S Bool))
          → lookup name (bzapi_cmd_handlers c api) ≡ o
          → Returns I (dispatch c api name o vm config)
      dispatches name none e = refuse-Returns I (codes "Unknown command: " ++ name)
      dispatches name (some handler) e =
          lookup-Holds (λ n h. Returns I (h vm config)) name (bzapi_cmd_handlers c api) handler
            handlers-Returns e
