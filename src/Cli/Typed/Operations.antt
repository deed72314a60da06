-- ===== src/Cli/Typed/Operations.antt =====
-- bzapi-cli/main.cpp: each command on a database returns.
use bzapi.Base.{
  ◌≡◌, refl, ◌++◌, Bool, true, none, some, ◌&&◌, arith, list_beq, list_eq, if◌then◌else◌,
}
use bzapi.Base.Text.{Bytes, codes}
use bzapi.Base.Map.{lookup}
use bzapi.Database.Replies.{Operation}
use bzapi.Cli.{Program, Console, Vm, Config, Api, count, uint64}
use bzapi.Cli.Options.{
  description, IsStored, Conforms, is_string, is_uint64, uuid, command, help, verbose,
  config_option, create_key, create_value, create_expire, update_key, update_value, expire_key,
  expire_ttl,
}
use bzapi.Cli.Options
use bzapi.Cli.Handlers.{refuse, on_database, on_text}
use bzapi.Cli.Commands
use bzapi.Cli.Returns.{
  Returns, >>=-Returns, if-Returns, as_string-Returns, as_uint64-Returns, defaulted-count,
}
use bzapi.Cli.Typed.{IsTotal, IsReadable, on_database-Returns}

&&-both : (a b : Bool) → (a && b) ≡ true → (a ≡ true) × (b ≡ true)
&&-both a b e = ground arith

pub refuse-Returns :
    {S : Type 0} (I : S → Type 0) (message : Bytes) → Returns I (refuse {S = S} message)
refuse-Returns I message w i = (_, _, refl, i)

module _ {S D : Type 0} (I : S → Type 0) (c : Console) (api : Api S D) (total : IsTotal I api)
    (vm : Vm) (config : Config) (readable : IsReadable config) (conforms : Conforms vm)
    (with_uuid : count vm uuid ≡ true) where
  pub opened-Returns :
      (op_name : Bytes) (text : D → Program S Bytes)
      → ((db : D) → Returns I (text db))
      → Returns I (on_database c api vm config op_name text)
  opened-Returns = on_database-Returns I c api total vm config readable conforms with_uuid

  text_command-Returns :
      (name op_name message : Bytes) (op : Bytes → Operation)
      → IsStored vm name is_string none
      → Returns I (
          if count vm name
          then on_database c api vm config op_name (on_text c api vm name op)
          else refuse message)
  text_command-Returns name op_name message op stored =
      if-Returns I _ _ _
        (λ there. opened-Returns op_name _ (λ db.
          >>=-Returns I _ _ (as_string-Returns I c vm name none stored there)
            (λ s. total.perform db (op s))))
        (λ missing. refuse-Returns I message)

  pub handle_add_writer-Returns : Returns I (Commands.handle_add_writer c api vm config)
  unfolding Commands.handle_add_writer description lookup list_beq
  handle_add_writer-Returns =
      text_command-Returns Options.add_writer_public_key _
        (Options.add_writer_public_key ++ codes " not specified") _
        (conforms.stored Options.add_writer_public_key is_string none refl)

  pub handle_remove_writer-Returns : Returns I (Commands.handle_remove_writer c api vm config)
  unfolding Commands.handle_remove_writer description lookup list_beq
  handle_remove_writer-Returns =
      text_command-Returns Options.remove_writer_public_key _
        (Options.remove_writer_public_key ++ codes " not specified") _
        (conforms.stored Options.remove_writer_public_key is_string none refl)

  pub handle_read-Returns : Returns I (Commands.handle_read c api vm config)
  unfolding Commands.handle_read description lookup list_beq
  handle_read-Returns =
      text_command-Returns Options.read_key _ (Options.read_key ++ codes " must be specified") _
        (conforms.stored Options.read_key is_string none refl)

  pub handle_qread-Returns : Returns I (Commands.handle_qread c api vm config)
  unfolding Commands.handle_qread description lookup list_beq
  handle_qread-Returns =
      text_command-Returns Options.qread_key _ (Options.qread_key ++ codes " must be specified") _
        (conforms.stored Options.qread_key is_string none refl)

  pub handle_delete-Returns : Returns I (Commands.handle_delete c api vm config)
  unfolding Commands.handle_delete description lookup list_beq
  handle_delete-Returns =
      text_command-Returns Options.delete_key _ (Options.delete_key ++ codes " must be specified") _
        (conforms.stored Options.delete_key is_string none refl)

  pub handle_has-Returns : Returns I (Commands.handle_has c api vm config)
  unfolding Commands.handle_has description lookup list_beq
  handle_has-Returns =
      text_command-Returns Options.has_key _ (Options.has_key ++ codes " must be specified") _
        (conforms.stored Options.has_key is_string none refl)

  pub handle_ttl-Returns : Returns I (Commands.handle_ttl c api vm config)
  unfolding Commands.handle_ttl description lookup list_beq
  handle_ttl-Returns =
      text_command-Returns Options.ttl_key _ (Options.ttl_key ++ codes " must be specified") _
        (conforms.stored Options.ttl_key is_string none refl)

  pub handle_persist-Returns : Returns I (Commands.handle_persist c api vm config)
  unfolding Commands.handle_persist description lookup list_beq
  handle_persist-Returns =
      text_command-Returns Options.persist_key _ (Options.persist_key ++ codes " must be specified")
        _ (conforms.stored Options.persist_key is_string none refl)

  two_command-Returns :
      (key second op_name message : Bytes) (text : D → Program S Bytes)
      → (count vm key ≡ true → count vm second ≡ true → (db : D) → Returns I (text db))
      → Returns I (
          if count vm key && count vm second
          then on_database c api vm config op_name text
          else refuse message)
  two_command-Returns key second op_name message text texts =
      if-Returns I _ _ _
        (λ there.
          let (first, other) = &&-both (count vm key) (count vm second) there in
          opened-Returns op_name text (texts first other))
        (λ missing. refuse-Returns I message)

  pub handle_update-Returns : Returns I (Commands.handle_update c api vm config)
  unfolding Commands.handle_update description lookup list_beq
  handle_update-Returns =
      two_command-Returns update_key update_value (codes "update")
        (update_key ++ codes " & " ++ update_value ++ codes " must be specified")
        (Commands.update_text c api vm)
        (λ first other db.
          >>=-Returns I _ _
            (as_string-Returns I c vm update_key none
              (conforms.stored update_key is_string none refl) first)
            (λ key.
              >>=-Returns I _ _
                (as_string-Returns I c vm update_value none
                  (conforms.stored update_value is_string none refl) other)
                (λ value. total.perform db (Operation.update key value))))

  pub handle_expire-Returns : Returns I (Commands.handle_expire c api vm config)
  unfolding Commands.handle_expire description lookup list_beq
  handle_expire-Returns =
      two_command-Returns expire_key expire_ttl (codes "expire")
        (expire_key ++ codes " & " ++ expire_ttl ++ codes " must be specified")
        (Commands.expire_text c api vm)
        (λ first other db.
          >>=-Returns I _ _
            (as_string-Returns I c vm expire_key none
              (conforms.stored expire_key is_string none refl) first)
            (λ key.
              >>=-Returns I _ _
                (as_uint64-Returns I c vm expire_ttl none
                  (conforms.stored expire_ttl is_uint64 none refl) other)
                (λ ttl. total.perform db (Operation.expire key ttl))))

  expire-IsStored : IsStored vm create_expire is_uint64 (some (uint64 0))
  unfolding description lookup list_beq
  expire-IsStored = conforms.stored create_expire is_uint64 _ refl

  pub handle_create-Returns : Returns I (Commands.handle_create c api vm config)
  unfolding Commands.handle_create description lookup list_beq
  handle_create-Returns =
      two_command-Returns create_key create_value (codes "create")
        (create_key ++ codes " & " ++ create_value ++ codes " must be specified")
        (Commands.create_text c api vm)
        (λ first other db.
          >>=-Returns I _ _
            (as_string-Returns I c vm create_key none
              (conforms.stored create_key is_string none refl) first)
            (λ key.
              >>=-Returns I _ _
                (as_string-Returns I c vm create_value none
                  (conforms.stored create_value is_string none refl) other)
                (λ value.
                  >>=-Returns I _ _
                    (as_uint64-Returns I c vm _ _ expire-IsStored
                      (defaulted-count vm _ _ _ expire-IsStored))
                    (λ expiry. total.perform db (Operation.create key value expiry)))))
