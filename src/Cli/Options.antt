-- ===== src/Cli/Options.antt =====
-- bzapi-cli/main.cpp: the options of the command line, and what boost makes of them.
use bzapi.Base.{[], ◌∷◌, false, Option, none, some, ◌≡◌, list_eq, All}
use bzapi.Base.Text.{Bytes, codes}
use bzapi.Base.Map.{Map, lookup, lookup-Holds}
use bzapi.Cli.{Value, string, uint64, boolean, flag, Vm}

abbrev pub create_db_max_size : Bytes
create_db_max_size = codes "create_db_max_size"

abbrev pub create_db_random_evict : Bytes
create_db_random_evict = codes "create_db_random_evict"

abbrev pub add_writer_public_key : Bytes
add_writer_public_key = codes "add_writer_public_key"

abbrev pub remove_writer_public_key : Bytes
remove_writer_public_key = codes "remove_writer_public_key"

abbrev pub create_key : Bytes
create_key = codes "create_key"

abbrev pub create_value : Bytes
create_value = codes "create_value"

abbrev pub create_expire : Bytes
create_expire = codes "create_expire"

abbrev pub read_key : Bytes
read_key = codes "read_key"

abbrev pub qread_key : Bytes
qread_key = codes "qread_key"

abbrev pub update_key : Bytes
update_key = codes "update_key"

abbrev pub update_value : Bytes
update_value = codes "update_value"

abbrev pub delete_key : Bytes
delete_key = codes "delete_key"

abbrev pub ttl_key : Bytes
ttl_key = codes "ttl_key"

abbrev pub persist_key : Bytes
persist_key = codes "persist_key"

abbrev pub expire_key : Bytes
expire_key = codes "expire_key"

abbrev pub expire_ttl : Bytes
expire_ttl = codes "expire_ttl"

abbrev pub has_key : Bytes
has_key = codes "has_key"

abbrev pub help : Bytes
help = codes "help"

abbrev pub verbose : Bytes
verbose = codes "verbose"

abbrev pub command : Bytes
command = codes "command"

abbrev pub timing : Bytes
timing = codes "timing"

abbrev pub uuid : Bytes
uuid = codes "uuid"

abbrev pub config_option : Bytes
config_option = codes "config"

-- The type that `po::value` gives an option.
pub data Kind : Type 0 where
  is_string is_uint64 is_boolean is_flag : Kind

abbrev pub kind_of : Value → Kind
kind_of (string s) = is_string
kind_of (uint64 n) = is_uint64
kind_of (boolean b) = is_boolean
kind_of flag = is_flag

-- `description`: the type of each option, and its default value.
unfoldable pub description : Map Bytes (Kind × Option Value)
description =
    (help, (is_flag, none))
    ∷ (verbose, (is_flag, none))
    ∷ (config_option, (is_string, some (string (codes "bzapi-cli.json"))))
    ∷ (command, (is_string, none))
    ∷ (timing, (is_flag, none))
    ∷ (uuid, (is_string, none))
    ∷ (create_db_max_size, (is_uint64, some (uint64 0)))
    ∷ (create_db_random_evict, (is_boolean, some (boolean false)))
    ∷ (add_writer_public_key, (is_string, none))
    ∷ (remove_writer_public_key, (is_string, none))
    ∷ (create_key, (is_string, none))
    ∷ (create_value, (is_string, none))
    ∷ (create_expire, (is_uint64, some (uint64 0)))
    ∷ (read_key, (is_string, none))
    ∷ (qread_key, (is_string, none))
    ∷ (update_key, (is_string, none))
    ∷ (update_value, (is_string, none))
    ∷ (delete_key, (is_string, none))
    ∷ (has_key, (is_string, none))
    ∷ (ttl_key, (is_string, none))
    ∷ (persist_key, (is_string, none))
    ∷ (expire_key, (is_string, none))
    ∷ (expire_ttl, (is_uint64, none))
    ∷ []

-- What boost documents of a parsed command line: an option that is stored has a value of its type,
-- and one that is not has no default.
pub data IsStored (vm : Vm) (name : Bytes) (kind : Kind) (default : Option Value) : Type 0 where
  present : (v : Value) → lookup name vm ≡ some v → kind_of v ≡ kind → IsStored vm name kind default
  absent : lookup name vm ≡ none → default ≡ none → IsStored vm name kind default

pub record Conforms (vm : Vm) : Type 0 where
  pub stored :
      (name : Bytes) (kind : Kind) (default : Option Value)
      → lookup name description ≡ some (kind, default)
      → IsStored vm name kind default

-- It is enough that every option of the description is stored so.
pub description-Conforms :
    (vm : Vm) → All (λ e. IsStored vm e.0 e.1.0 e.1.1) description → Conforms vm
description-Conforms vm all = record {
  stored = λ name kind default e.
      lookup-Holds (λ n v. IsStored vm n v.0 v.1) name description (kind, default) all e;
}
