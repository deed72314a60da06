-- ===== src/Cli/Performs.antt =====
-- bzapi-cli/main.cpp: what a command asks of the database, and what it prints.
use bzapi.Base.{ℕ, ◌≡◌, refl, ap, ◌∙◌, ◌++◌, Bool, true, ◌&&◌, some, if-true, list_eq, list_beq}
use bzapi.Base.Text.{Bytes, codes}
use bzapi.Base.Map.{lookup}
use bzapi.Database.Replies.{Operation}
use bzapi.Cli.{
  World, returned, continue, Ended, Program, Console, Vm, Config, Api, Value, string, uint64, endl,
  print, cout, count, as_string, as_uint64, cast_string, stop_timer, do_timing,
}
use bzapi.Cli.Options
use bzapi.Cli.Options.{command, verbose}
use bzapi.Cli.Handlers.{open_db, on_database, on_text, where_opened}
use bzapi.Cli.Commands
use bzapi.Cli.Main.{bzapi_cmd_handlers, process_program_options, set_verbose, dispatch}

-- A command with the options of a command line, and the operation that they name.
pub data Requests (vm : Vm) : Bytes → Operation → Type 0 where
  writers : Requests vm (codes "writers") Operation.writers
  keys : Requests vm (codes "keys") Operation.keys
  size : Requests vm (codes "size") Operation.size
  add_writer :
      (s : Bytes)
      → lookup Options.add_writer_public_key vm ≡ some (string s)
      → Requests vm (codes "add_writer") (Operation.add_writer s)
  remove_writer :
      (s : Bytes)
      → lookup Options.remove_writer_public_key vm ≡ some (string s)
      → Requests vm (codes "remove_writer") (Operation.remove_writer s)
  read :
      (s : Bytes)
      → lookup Options.read_key vm ≡ some (string s)
      → Requests vm (codes "read") (Operation.read s)
  qread :
      (s : Bytes)
      → lookup Options.qread_key vm ≡ some (string s)
      → Requests vm (codes "qread") (Operation.quick_read s)
  delete :
      (s : Bytes)
      → lookup Options.delete_key vm ≡ some (string s)
      → Requests vm (codes "delete") (Operation.remove s)
  has :
      (s : Bytes)
      → lookup Options.has_key vm ≡ some (string s)
      → Requests vm (codes "has") (Operation.has s)
  ttl :
      (s : Bytes)
      → lookup Options.ttl_key vm ≡ some (string s)
      → Requests vm (codes "ttl") (Operation.ttl s)
  persist :
      (s : Bytes)
      → lookup Options.persist_key vm ≡ some (string s)
      → Requests vm (codes "persist") (Operation.persist s)
  create :
      (key value : Bytes) (expiry : ℕ)
      → lookup Options.create_key vm ≡ some (string key)
      → lookup Options.create_value vm ≡ some (string value)
      → lookup Options.create_expire vm ≡ some (uint64 expiry)
      → Requests vm (codes "create") (Operation.create key value expiry)
  update :
      (key value : Bytes)
      → lookup Options.update_key vm ≡ some (string key)
      → lookup Options.update_value vm ≡ some (string value)
      → Requests vm (codes "update") (Operation.update key value)
  expire :
      (key : Bytes) (expiry : ℕ)
      → lookup Options.expire_key vm ≡ some (string key)
      → lookup Options.expire_ttl vm ≡ some (uint64 expiry)
      → Requests vm (codes "expire") (Operation.expire key expiry)

present-count :
    (vm : Vm) (name : Bytes) {v : Value} → lookup name vm ≡ some v → count vm name ≡ true
unfolding count
present-count vm name e = rw e refl

both-count :
    (vm : Vm) (first second : Bytes) {v v2 : Value}
    → lookup first vm ≡ some v
    → lookup second vm ≡ some v2
    → (count vm first && count vm second) ≡ true
unfolding count
both-count vm first second e e2 = rw (e, e2) refl

module _ {S D : Type 0} (c : Console) (api : Api S D) (vm : Vm) (config : Config) where
  -- The handler of a command is `on_database` with a text that is the operation's.
  record Handled (name : Bytes) (op : Operation) : Type 1 where
    handler : Vm → Config → Program S Bool
    text : D → Program S Bytes
    in_table : lookup name (bzapi_cmd_handlers c api) ≡ some handler
    opens : handler vm config ≡ on_database c api vm config name text
    performs : (db : D) (w : World S) → text db w ≡ api.perform db op w

  requested : {name : Bytes} {op : Operation} → Requests vm name op → Handled name op
  unfolding bzapi_cmd_handlers lookup list_beq as_string as_uint64 Commands.handle_writer
      Commands.handle_keys Commands.handle_size Commands.handle_create Commands.handle_update
      Commands.handle_expire Commands.handle_add_writer Commands.handle_remove_writer
      Commands.handle_read Commands.handle_qread Commands.handle_delete Commands.handle_has
      Commands.handle_ttl Commands.handle_persist
  requested writers = record {
    handler = Commands.handle_writer c api;
    text = λ db. api.perform db Operation.writers;
    in_table = refl;
    opens = refl;
    performs = λ db w. refl;
  }
  requested keys = record {
    handler = Commands.handle_keys c api;
    text = λ db. api.perform db Operation.keys;
    in_table = refl;
    opens = refl;
    performs = λ db w. refl;
  }
  requested size = record {
    handler = Commands.handle_size c api;
    text = λ db. api.perform db Operation.size;
    in_table = refl;
    opens = refl;
    performs = λ db w. refl;
  }
  requested (add_writer s e) = record {
    handler = Commands.handle_add_writer c api;
    text = on_text c api vm Options.add_writer_public_key Operation.add_writer;
    in_table = refl;
    opens =
        if-true _ _ (count vm Options.add_writer_public_key)
          (present-count vm Options.add_writer_public_key e);
    performs = λ db w. rw e refl;
  }
  requested (remove_writer s e) = record {
    handler = Commands.handle_remove_writer c api;
    text = on_text c api vm Options.remove_writer_public_key Operation.remove_writer;
    in_table = refl;
    opens =
        if-true _ _ (count vm Options.remove_writer_public_key)
          (present-count vm Options.remove_writer_public_key e);
    performs = λ db w. rw e refl;
  }
  requested (read s e) = record {
    handler = Commands.handle_read c api;
    text = on_text c api vm Options.read_key Operation.read;
    in_table = refl;
    opens = if-true _ _ (count vm Options.read_key) (present-count vm Options.read_key e);
    performs = λ db w. rw e refl;
  }
  requested (qread s e) = record {
    handler = Commands.handle_qread c api;
    text = on_text c api vm Options.qread_key Operation.quick_read;
    in_table = refl;
    opens = if-true _ _ (count vm Options.qread_key) (present-count vm Options.qread_key e);
    performs = λ db w. rw e refl;
  }
  requested (delete s e) = record {
    handler = Commands.handle_delete c api;
    text = on_text c api vm Options.delete_key Operation.remove;
    in_table = refl;
    opens = if-true _ _ (count vm Options.delete_key) (present-count vm Options.delete_key e);
    performs = λ db w. rw e refl;
  }
  requested (has s e) = record {
    handler = Commands.handle_has c api;
    text = on_text c api vm Options.has_key Operation.has;
    in_table = refl;
    opens = if-true _ _ (count vm Options.has_key) (present-count vm Options.has_key e);
    performs = λ db w. rw e refl;
  }
  requested (ttl s e) = record {
    handler = Commands.handle_ttl c api;
    text = on_text c api vm Options.ttl_key Operation.ttl;
    in_table = refl;
    opens = if-true _ _ (count vm Options.ttl_key) (present-count vm Options.ttl_key e);
    performs = λ db w. rw e refl;
  }
  requested (persist s e) = record {
    handler = Commands.handle_persist c api;
    text = on_text c api vm Options.persist_key Operation.persist;
    in_table = refl;
    opens = if-true _ _ (count vm Options.persist_key) (present-count vm Options.persist_key e);
    performs = λ db w. rw e refl;
  }
  requested (create key value expiry e e2 e3) = record {
    handler = Commands.handle_create c api;
    text = Commands.create_text c api vm;
    in_table = refl;
    opens =
        if-true _ _ (count vm Options.create_key && count vm Options.create_value)
          (both-count vm Options.create_key Options.create_value e e2);
    performs = λ db w. rw (e, e2, e3) refl;
  }
  requested (update key value e e2) = record {
    handler = Commands.handle_update c api;
    text = Commands.update_text c api vm;
    in_table = refl;
    opens =
        if-true _ _ (count vm Options.update_key && count vm Options.update_value)
          (both-count vm Options.update_key Options.update_value e e2);
    performs = λ db w. rw (e, e2) refl;
  }
  requested (expire key expiry e e2) = record {
    handler = Commands.handle_expire c api;
    text = Commands.expire_text c api vm;
    in_table = refl;
    opens =
        if-true _ _ (count vm Options.expire_key && count vm Options.expire_ttl)
          (both-count vm Options.expire_key Options.expire_ttl e e2);
    performs = λ db w. rw (e, e2) refl;
  }

  -- What is left of a command when its operation has given a text: the text is printed, and the time
  -- if it is wanted.
  abbrev pub told : Bytes → Bytes → World S → Ended S Bool
  told op_name t w =
      stop_timer c (count vm (codes "timing")) op_name (returned true (print (cout (t ++ endl)) w))

  on_database-told :
      (op_name : Bytes) (text : D → Program S Bytes) (db : D) (t : Bytes) (w w1 w2 : World S)
      → open_db c api vm config w ≡ returned (some db) w1
      → text db w1 ≡ returned t w2
      → on_database c api vm config op_name text w ≡ told op_name t w2
  unfolding on_database do_timing
  on_database-told op_name text db t w w1 w2 opened texted =
      ap (λ r. continue r (where_opened c api vm op_name text)) opened
      ∙ ap
          (λ r.
            stop_timer c (count vm (codes "timing")) op_name
              (continue r (λ t w. returned true (print (cout (t ++ endl)) w))))
          texted

  -- On a command line with a command on a database and the options that it reads: once the database
  -- is open, the command asks for exactly the operation that the options name, prints its text, and
  -- its handler returns true.
  pub process_program_options-performs :
      {name : Bytes} {op : Operation} (db : D) (t : Bytes) (w w1 w2 w3 : World S)
      → Requests vm name op
      → lookup command vm ≡ some (string name)
      → set_verbose c api (count vm verbose) w ≡ returned tt w1
      → open_db c api vm config w1 ≡ returned (some db) w2
      → api.perform db op w2 ≡ returned t w3
      → process_program_options c api vm config w ≡ told name t w3
  unfolding process_program_options as_string
  process_program_options-performs {name} db t w w1 w2 w3 request command_is verbosed opened
        performed =
      let h = requested request in
      let chosen : Bytes → Program S Bool =
        λ n. dispatch c api n (lookup n (bzapi_cmd_handlers c api)) vm config in
      let named : Program S Bool = λ w. continue (cast_string c (lookup command vm) w) chosen in
      ap (λ r. continue r (λ u. named)) verbosed
      ∙ ap (λ v. continue (cast_string c v w1) chosen) command_is
      ∙ ap (λ o. dispatch c api name o vm config w1) h.in_table
      ∙ ap (λ (m : Program S Bool). m w1) h.opens
      ∙ on_database-told name h.text db t w1 w2 w3 opened (h.performs db w2 ∙ performed)
