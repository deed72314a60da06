-- ===== src/Examples/Callers.antt =====
-- Databases and responses, as a caller sees them.
use bzapi.Base.{ℕ, ◌≡◌, refl, [], ◌∷◌, none, some}
use bzapi.Base.Text.{codes}
use bzapi.Messages.{normal, connection_error}
use bzapi.Response.{Response, new_response}
use bzapi.Dispatch.{init, call, no_error}
use bzapi.Dispatch.Handlers.{handle_client_timeout, timeout_response}
use bzapi.Database.{Handler, AsyncDatabase, initialized, submit, ready, failed}
use bzapi.Database.Operations.{key_value}
use bzapi.Database.Replies.{Operation, call_of, call_of-reply, call_of-connection_error}
use bzapi.Database.Timeouts.{submit-timeout}
use bzapi.Examples.{toy_wire, toy_swarm, answer_of}

abbrev unsettled : Response ℕ
unsettled = new_response 4000

call_of-reply_example :
    ((call_of (Operation.read (codes "key"))).policy ≡ normal)
    × (((call_of (Operation.read (codes "key"))).reply (answer_of 5) none).error ≡ 0)
call_of-reply_example = call_of-reply (Operation.read (codes "key")) (answer_of 5) refl

call_of-connection_error_example :
    (call_of Operation.size).reply (answer_of 5) (some (codes "refused"))
    ≡ failed (codes "refused") connection_error
call_of-connection_error_example =
    call_of-connection_error Operation.size (answer_of 5) (codes "refused")

abbrev opened_db : AsyncDatabase
opened_db = record { swarm = toy_swarm 2; uuid = codes "db"; state = initialized }

submit-timeout_example :
    (h : Handler) × ((handle_client_timeout no_error 1
        (submit toy_wire 10 opened_db (call_of (Operation.quick_read (codes "key"))) 9 init).0).1
      ≡ call 1 h timeout_response ∷ [])
    × (h.resp ≡ 9)
    × (h.reply timeout_response none ≡ ready (key_value ([], [])))
submit-timeout_example =
    submit-timeout toy_wire 10 opened_db (Operation.quick_read (codes "key")) 9 init
