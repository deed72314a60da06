-- ===== src/Cli/Failures.antt =====
-- bzapi-cli/main.cpp: what a command does when the library cannot be initialized.
use bzapi.Base.{
  ◌≡◌, refl, ap, List, [], ◌∷◌, ◌++◌, Bool, true, false, none, some, ◌&&◌, All, arith, list_beq,
  list_eq, if◌then◌else◌,
}
use bzapi.Base.Text.{Bytes, codes}
use bzapi.Base.Map.{Map, lookup, lookup-Holds}
use bzapi.Database.Replies.{Operation}
use bzapi.Cli.{World, Program, Console, Vm, Config, Api, count, returned, continue}
use bzapi.Cli.Options
use bzapi.Cli.Handlers.{
  initialize_bzapi, open_where_initialized, open_db, where_opened, on_database, on_text, refuse,
  handle_create_db, handle_has_db, create_where_initialized, has_where_initialized, or_error,
}
use bzapi.Cli.Commands
use bzapi.Cli.Main.{bzapi_cmd_handlers}

-- The options without which a command is refused.
unfoldable pub arguments : Map Bytes (List Bytes)
arguments =
    (codes "add_writer", Options.add_writer_public_key ∷ [])
    ∷ (codes "remove_writer", Options.remove_writer_public_key ∷ [])
    ∷ (codes "create", Options.create_key ∷ Options.create_value ∷ [])
    ∷ (codes "read", Options.read_key ∷ [])
    ∷ (codes "qread", Options.qread_key ∷ [])
    ∷ (codes "update", Options.update_key ∷ Options.update_value ∷ [])
    ∷ (codes "delete", Options.delete_key ∷ [])
    ∷ (codes "has", Options.has_key ∷ [])
    ∷ (codes "ttl", Options.ttl_key ∷ [])
    ∷ (codes "persist", Options.persist_key ∷ [])
    ∷ (codes "expire", Options.expire_key ∷ Options.expire_ttl ∷ [])
    ∷ []

abbrev pub needed : Bytes → List Bytes
unfolding arguments
needed name = elim (lookup name arguments) [ none ↦ [] | some keys ↦ keys ]

module _ {S D : Type 0} (c : Console) (api : Api S D) (vm : Vm) (config : Config) where
  -- The program gives up, and leaves the library as the failed initialization left it.
  abbrev pub Fails : Program S Bool → Type 0
  Fails m =
      (w w1 : World S)
      → initialize_bzapi c api vm config w ≡ returned false w1
      → (w2 : World S) × (m w ≡ returned false w2) × (w2.library ≡ w1.library)

  on_database-Fails :
      (op_name : Bytes) (text : D → Program S Bytes)
      → Fails (on_database c api vm config op_name text)
  unfolding on_database open_db
  on_database-Fails op_name text w w1 e = (
    w1,
    ap
        (λ r.
          continue (continue r (open_where_initialized c api vm))
            (where_opened c api vm op_name text))
        e,
    refl,
  )

  guarded-Fails :
      (b : Bool) (op_name message : Bytes) (text : D → Program S Bytes)
      → b ≡ true
      → Fails (if b then on_database c api vm config op_name text else refuse message)
  guarded-Fails true op_name message text there = on_database-Fails op_name text
  guarded-Fails false op_name message text there = cc

  &&-true : (a b : Bool) → a ≡ true → b ≡ true → (a && b) ≡ true
  &&-true a b e f = ground arith

  handle_create_db-Fails : Fails (handle_create_db c api vm config)
  unfolding handle_create_db
  handle_create_db-Fails w w1 e = (
    _,
    ap
        (λ r.
          continue r (λ ok w. continue (create_where_initialized c api vm ok w) (or_error c api)))
        e,
    refl,
  )

  handle_has_db-Fails : Fails (handle_has_db c api vm config)
  unfolding handle_has_db
  handle_has_db-Fails w w1 e = (
    _,
    ap (λ r. continue r (λ ok w. continue (has_where_initialized c api vm ok w) (or_error c api)))
        e,
    refl,
  )

  abbrev pub HasAll : List Bytes → Type 0
  HasAll = All (λ key. count vm key ≡ true)

  handlers-Fails : All (λ e. HasAll (needed e.0) → Fails (e.1 vm config)) (bzapi_cmd_handlers c api)
  unfolding bzapi_cmd_handlers lookup list_beq arguments Commands.handle_status
      Commands.handle_writer Commands.handle_add_writer Commands.handle_remove_writer
      Commands.handle_create Commands.handle_read Commands.handle_qread Commands.handle_update
      Commands.handle_delete Commands.handle_has Commands.handle_ttl Commands.handle_persist
      Commands.handle_expire Commands.handle_keys Commands.handle_size
  handlers-Fails = (
    λ there. on_database-Fails _ api.swarm_status,
    (
      λ there. handle_create_db-Fails,
      (
        λ there. handle_has_db-Fails,
        (
          λ there. on_database-Fails _ (λ db. api.perform db Operation.writers),
          (
            λ there.
                guarded-Fails _ _ (Options.add_writer_public_key ++ codes " not specified")
                  (on_text c api vm Options.add_writer_public_key Operation.add_writer) there.0,
            (
              λ there.
                  guarded-Fails _ _ (Options.remove_writer_public_key ++ codes " not specified")
                    (on_text c api vm Options.remove_writer_public_key Operation.remove_writer)
                    there.0,
              (
                λ there.
                    guarded-Fails _ _
                      (Options.create_key
                        ++ codes " & "
                        ++ Options.create_value
                        ++ codes " must be specified")
                      (Commands.create_text c api vm) (&&-true _ _ there.0 there.1.0),
                (
                  λ there.
                      guarded-Fails _ _ (Options.read_key ++ codes " must be specified")
                        (on_text c api vm Options.read_key Operation.read) there.0,
                  (
                    λ there.
                        guarded-Fails _ _ (Options.qread_key ++ codes " must be specified")
                          (on_text c api vm Options.qread_key Operation.quick_read) there.0,
                    (
                      λ there.
                          guarded-Fails _ _
                            (Options.update_key
                              ++ codes " & "
                              ++ Options.update_value
                              ++ codes " must be specified")
                            (Commands.update_text c api vm) (&&-true _ _ there.0 there.1.0),
                      (
                        λ there.
                            guarded-Fails _ _ (Options.delete_key ++ codes " must be specified")
                              (on_text c api vm Options.delete_key Operation.remove) there.0,
                        (
                          λ there.
                              guarded-Fails _ _ (Options.has_key ++ codes " must be specified")
                                (on_text c api vm Options.has_key Operation.has) there.0,
                          (
                            λ there.
                                guarded-Fails _ _ (Options.ttl_key ++ codes " must be specified")
                                  (on_text c api vm Options.ttl_key Operation.ttl) there.0,
                            (
                              λ there.
                                  guarded-Fails _ _
                                    (Options.persist_key ++ codes " must be specified")
                                    (on_text c api vm Options.persist_key Operation.persist)
                                    there.0,
                              (
                                λ there.
                                    guarded-Fails _ _
                                      (Options.expire_key
                                        ++ codes " & "
                                        ++ Options.expire_ttl
                                        ++ codes " must be specified")
                                      (Commands.expire_text c api vm)
                                      (&&-true _ _ there.0 there.1.0),
                                (
                                  λ there.
                                      on_database-Fails _ (λ db. api.perform db Operation.keys),
                                  (
                                    λ there.
                                        on_database-Fails _ (λ db. api.perform db Operation.size),
                                    tt,
                                  ),
                                ),
                              ),
                            ),
                          ),
                        ),
                      ),
                    ),
                  ),
                ),
              ),
            ),
          ),
        ),
      ),
    ),
  )

  -- Every command of the table that has its arguments.
  pub handler-Fails :
      (name : Bytes) (handler : Vm → Config → Program S Bool)
      → lookup name (bzapi_cmd_handlers c api) ≡ some handler
      → HasAll (needed name)
      → Fails (handler vm config)
  handler-Fails name handler e =
      lookup-Holds (λ n h. HasAll (needed n) → Fails (h vm config)) name (bzapi_cmd_handlers c api)
        handler handlers-Fails e
