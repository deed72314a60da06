-- ===== src/Cli/Commands.antt =====
-- bzapi-cli/main.cpp: the handlers of the commands on a database that is opened first.
use bzapi.Base.{◌++◌, Bool, if◌then◌else◌, ◌&&◌}
use bzapi.Base.Text.{Bytes, codes}
use bzapi.Database.Replies.{Operation}
use bzapi.Cli.{Program, ◌>>=◌, Console, Vm, Config, Api, count, as_string, as_uint64}
use bzapi.Cli.Handlers.{refuse, on_database, on_text}
use bzapi.Cli.Options.{
  add_writer_public_key, remove_writer_public_key, create_key, create_value, create_expire,
  read_key, qread_key, update_key, update_value, delete_key, ttl_key, persist_key, expire_key,
  expire_ttl, has_key,
}

module _ {S D : Type 0} (c : Console) (api : Api S D) where
  unfoldable pub handle_status : Vm → Config → Program S Bool
  unfolding on_database
  handle_status vm config = on_database c api vm config (codes "status") api.swarm_status

  unfoldable pub handle_writer : Vm → Config → Program S Bool
  unfolding on_database
  handle_writer vm config =
      on_database c api vm config (codes "writers") (λ db. api.perform db Operation.writers)

  unfoldable pub handle_add_writer : Vm → Config → Program S Bool
  unfolding on_database as_string count
  handle_add_writer vm config =
      if count vm add_writer_public_key
      then on_database c api vm config (codes "add_writer")
          (on_text c api vm add_writer_public_key Operation.add_writer)
      else refuse (add_writer_public_key ++ codes " not specified")

  unfoldable pub handle_remove_writer : Vm → Config → Program S Bool
  unfolding on_database as_string count
  handle_remove_writer vm config =
      if count vm remove_writer_public_key
      then on_database c api vm config (codes "remove_writer")
          (on_text c api vm remove_writer_public_key Operation.remove_writer)
      else refuse (remove_writer_public_key ++ codes " not specified")

  abbrev pub create_text : Vm → D → Program S Bytes
  create_text vm db = do
    key ← as_string c vm create_key
    value ← as_string c vm create_value
    expiry ← as_uint64 c vm create_expire
    api.perform db (Operation.create key value expiry)

  unfoldable pub handle_create : Vm → Config → Program S Bool
  unfolding on_database as_string as_uint64 count
  handle_create vm config =
      if count vm create_key && count vm create_value
      then on_database c api vm config (codes "create") (create_text vm)
      else refuse (create_key ++ codes " & " ++ create_value ++ codes " must be specified")

  unfoldable pub handle_read : Vm → Config → Program S Bool
  unfolding on_database as_string count
  handle_read vm config =
      if count vm read_key
      then on_database c api vm config (codes "read") (on_text c api vm read_key Operation.read)
      else refuse (read_key ++ codes " must be specified")

  unfoldable pub handle_qread : Vm → Config → Program S Bool
  unfolding on_database as_string count
  handle_qread vm config =
      if count vm qread_key
      then on_database c api vm config (codes "qread")
          (on_text c api vm qread_key Operation.quick_read)
      else refuse (qread_key ++ codes " must be specified")

  abbrev pub update_text : Vm → D → Program S Bytes
  update_text vm db = do
    key ← as_string c vm update_key
    value ← as_string c vm update_value
    api.perform db (Operation.update key value)

  unfoldable pub handle_update : Vm → Config → Program S Bool
  unfolding on_database as_string count
  handle_update vm config =
      if count vm update_key && count vm update_value
      then on_database c api vm config (codes "update") (update_text vm)
      else refuse (update_key ++ codes " & " ++ update_value ++ codes " must be specified")

  unfoldable pub handle_delete : Vm → Config → Program S Bool
  unfolding on_database as_string count
  handle_delete vm config =
      if count vm delete_key
      then on_database c api vm config (codes "delete")
          (on_text c api vm delete_key Operation.remove)
      else refuse (delete_key ++ codes " must be specified")

  unfoldable pub handle_has : Vm → Config → Program S Bool
  unfolding on_database as_string count
  handle_has vm config =
      if count vm has_key
      then on_database c api vm config (codes "has") (on_text c api vm has_key Operation.has)
      else refuse (has_key ++ codes " must be specified")

  unfoldable pub handle_ttl : Vm → Config → Program S Bool
  unfolding on_database as_string count
  handle_ttl vm config =
      if count vm ttl_key
      then on_database c api vm config (codes "ttl") (on_text c api vm ttl_key Operation.ttl)
      else refuse (ttl_key ++ codes " must be specified")

  unfoldable pub handle_persist : Vm → Config → Program S Bool
  unfolding on_database as_string count
  handle_persist vm config =
      if count vm persist_key
      then on_database c api vm config (codes "persist")
          (on_text c api vm persist_key Operation.persist)
      else refuse (persist_key ++ codes " must be specified")

  abbrev pub expire_text : Vm → D → Program S Bytes
  expire_text vm db = do
    key ← as_string c vm expire_key
    ttl ← as_uint64 c vm expire_ttl
    api.perform db (Operation.expire key ttl)

  unfoldable pub handle_expire : Vm → Config → Program S Bool
  unfolding on_database as_string as_uint64 count
  handle_expire vm config =
      if count vm expire_key && count vm expire_ttl
      then on_database c api vm config (codes "expire") (expire_text vm)
      else refuse (expire_key ++ codes " & " ++ expire_ttl ++ codes " must be specified")

  unfoldable pub handle_keys : Vm → Config → Program S Bool
  unfolding on_database
  handle_keys vm config =
      on_database c api vm config (codes "keys") (λ db. api.perform db Operation.keys)

  unfoldable pub handle_size : Vm → Config → Program S Bool
  unfolding on_database
  handle_size vm config =
      on_database c api vm config (codes "size") (λ db. api.perform db Operation.size)
