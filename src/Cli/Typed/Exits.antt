-- ===== src/Cli/Typed/Exits.antt =====
-- bzapi-cli/main.cpp: `main` gives one of two exit codes.
use bzapi.Base.{
  ℕ, ◌≡◌, ◌⊎◌, inl, inr, refl, subst, ap, ◌∙◌, Bool, true, false, Option, none, some, list_beq,
  list_eq, if◌then◌else◌, nat_beq, ◌||◌,
}
use bzapi.Base.Text.{Bytes, codes}
use bzapi.Base.Map.{lookup}
use bzapi.Cli.{
  World, Program, print, cout, continue, ◌>>=◌, Console, Vm, Config, File, unreadable, malformed,
  holds, Api, count, as_string, Value, returned,
}
use bzapi.Cli.Options.{
  description, IsStored, Conforms, is_string, help, config_option, uuid, command,
}
use bzapi.Cli.Handlers.{load_config, load_file}
use bzapi.Cli.Main.{
  main, processed, missing, run_command, where_loaded, load_and_run, try_main, finish, parsed,
  success, error_in_command_line,
}
use bzapi.Cli.Returns.{Returns, as_string-Returns, defaulted-count}
use bzapi.Cli.Typed.{IsTotal, IsReadable}
use bzapi.Cli.Typed.Handled.{process_program_options-Returns}

-- `I` holds while the library is used, and `J` when `main` returns.
module _ {S : Type 0} (I J : S → Type 0) where
  -- An exit code that is not the one for exceptions, or none yet.
  abbrev IsCode : Option ℕ → S → Type 0
  IsCode none s = I s
  IsCode (some n) s = ((n ≡ success) ⊎ (n ≡ error_in_command_line)) × J s

  abbrev Codes : (S → Type 0) → Program S (Option ℕ) → Type 0
  Codes P m =
      (w : World S)
      → P w.library
      → (o : Option ℕ) × (w1 : World S) × (m w ≡ returned o w1) × IsCode o w1.library

  >>=-Codes :
      {A : Type 0} (P : S → Type 0) (m : Program S A) (f : A → Program S (Option ℕ))
      → Returns P m
      → ((a : A) → Codes P (f a))
      → Codes P (m >>= f)
  >>=-Codes P m f first next w i =
      let (a, w1, e, i1) = first w i in
      let (o, w2, e2, code) = next a w1 i1 in (o, w2, ap (λ x. continue x f) e ∙ e2, code)

  if-Codes :
      (P : S → Type 0) (b : Bool) (m k : Program S (Option ℕ))
      → (b ≡ true → Codes P m)
      → (b ≡ false → Codes P k)
      → Codes P (if b then m else k)
  if-Codes P true m k hm hk = hm refl
  if-Codes P false m k hm hk = hk refl

module _ {S D : Type 0} (I J : S → Type 0) (c : Console) (api : Api S D) (total : IsTotal I api)
    (ends : (s : S) → I s → J (api.terminate s)) (vm : Vm) (conforms : Conforms vm)
    (files : Bytes → File)
    (readable : (name : Bytes) (config : Config)
      → files name ≡ holds config
      → IsReadable config) where
  -- Before a command is begun.
  abbrev Early : S → Type 0
  Early s = I s × J s

  missing-Codes : (message : Bytes) → Codes I J Early (missing c api message)
  missing-Codes message w (i, j) = (_, _, refl, (inr refl, j))

  run_command-Codes :
      (config : Config)
      → IsReadable config
      → count vm uuid ≡ true
      → count vm command ≡ true
      → Codes I J I (run_command c api vm config)
  unfolding run_command
  run_command-Codes config ok with_uuid with_command =
      >>=-Codes I J I _ _
        (process_program_options-Returns I c api total vm config ok conforms with_uuid with_command)
        processed-Codes
    where
      processed-Codes : (b : Bool) → Codes I J I (processed c api b)
      processed-Codes true w i = (_, _, refl, (inl refl, ends w.library i))
      processed-Codes false w i = (_, _, refl, i)

  where_loaded-Codes :
      (config : Option Config)
      → ((x : Config) → config ≡ some x → IsReadable x)
      → Codes I J Early (where_loaded c api vm config)
  unfolding run_command
  where_loaded-Codes none ok = λ w (i, j). (_, _, refl, (inr refl, j))
  where_loaded-Codes (some config) ok =
      if-Codes I J Early (count vm uuid) _ (missing c api (codes "Error: uuid not specified\n"))
        (λ with_uuid.
          if-Codes I J Early (count vm command) (run_command c api vm config)
            (missing c api (codes "Error: command not specified\n"))
            (λ with_command w (i, j).
              run_command-Codes config (ok config refl) with_uuid with_command w i)
            (λ e. missing-Codes (codes "Error: command not specified\n")))
        (λ e. missing-Codes (codes "Error: uuid not specified\n"))

  load_file-Returns : (name : Bytes) (file : File) → Returns {S = S} Early (load_file name file)
  load_file-Returns name (unreadable why) w i = (_, _, refl, i)
  load_file-Returns name (malformed why) w i = (_, _, refl, i)
  load_file-Returns name (holds config) w i = (_, _, refl, i)

  -- What is loaded is what the file holds.
  load_file-holds :
      (name : Bytes) (file : File) (w w1 : World S) (x : Config)
      → load_file name file w ≡ returned (some x) w1
      → file ≡ holds x
  load_file-holds name (unreadable why) w w1 x e = cc
  load_file-holds name (malformed why) w w1 x e = cc
  load_file-holds name (holds config) w w1 x e = cc

  load_and_run-Codes : Codes I J Early (load_and_run c api files vm)
  unfolding load_config as_string description lookup list_beq
  load_and_run-Codes =
      >>=-Codes I J Early _ _
        (as_string-Returns Early c vm config_option _ stored (defaulted-count vm _ _ _ stored))
        (λ name w i.
          let (config, w1, e, i1) = load_file-Returns name (files name) w i in
          let (o, w2, e2, code) =
            where_loaded-Codes config
              (λ x is. readable name x (
                load_file-holds name (files name) w w1 x
                  (subst (λ y. load_file name (files name) w ≡ returned y w1) is e)))
              w1 i1 in
          (o, w2, ap (λ x. continue x (where_loaded c api vm)) e ∙ e2, code))
    where
      stored : IsStored vm config_option is_string (some (Value.string (codes "bzapi-cli.json")))
      stored = conforms.stored config_option is_string _ refl

  try_main-Codes : (argc : ℕ) → Codes I J Early (try_main c api files argc (parsed vm))
  unfolding count
  try_main-Codes argc =
      if-Codes I J Early (count vm help || nat_beq argc 1) _ (load_and_run c api files vm)
        (λ shown w (i, j). (some success, print (cout c.description) w, refl, (inl refl, j)))
        (λ e. load_and_run-Codes)

  finish-Code :
      (o : Option ℕ) (w : World S)
      → IsCode I J o w.library
      → (code : ℕ) × (w1 : World S) × (finish c api (returned o w) ≡ returned code w1)
        × ((code ≡ success) ⊎ (code ≡ error_in_command_line))
        × J w1.library
  finish-Code none w i = (_, _, refl, inr refl, ends w.library i)
  finish-Code (some code) w (which, j) = (code, w, refl, which, j)

  -- Let `I` be kept by the calls of the library, let `terminate` lead from `I` to `J`, and let both hold
  -- at the start. With options of their types, files whose configurations have the members that are
  -- read, and calls that return wherever `I` holds: whatever the command and the arguments, `main`
  -- returns, its code is `SUCCESS` or `ERROR_IN_COMMAND_LINE`, never the one for an exception, and `J`
  -- holds of the library that it leaves.
  pub main-code :
      (argc : ℕ) (w : World S)
      → I w.library
      → J w.library
      → (code : ℕ) × (w1 : World S) × (main c api files argc (parsed vm) w ≡ returned code w1)
        × ((code ≡ success) ⊎ (code ≡ error_in_command_line))
        × J w1.library
  unfolding main
  main-code argc w i j =
      let (o, w1, e, code) = try_main-Codes argc w (i, j) in
      let (exit_code, w2, e2, which, k) = finish-Code o w1 code in
      (exit_code, w2, ap (finish c api) e ∙ e2, which, k)
