-- ===== src/Examples/Requests.antt =====
-- The dispatcher, tried on a request that two nodes of three must answer alike.
use bzapi.Base.{
  ◌↔◌, ℕ, ◌≡◌, ◌≢◌, ◌≤◌, refl, List, [], ◌∷◌, ◌++◌, true, false, some, arith, inl, nat_eq, list_eq,
  list_beq,
}
use bzapi.Base.Text.{Bytes, codes}
use bzapi.Base.Map.{Map, lookup, insert, erase}
use bzapi.Base.Decimal.{stoull, from_digits}
use bzapi.Base.Outcome.{done, undefined}
use bzapi.Messages.{
  Payload, Envelope, DatabaseMsg, Request, normal, fastest, DatabaseResponse, timestamp_error_msg,
  duplicate_error_msg,
}
use bzapi.Dispatch
use bzapi.Dispatch.Handlers
use bzapi.Dispatch.Run
use bzapi.Dispatch.Run.{Event, send, response, error, client_timeout}
use bzapi.Dispatch.{
  Dispatch, Effect, MsgInfo, init, call, empty_header, empty_envelope, Timer, no_error,
}
use bzapi.Dispatch.Handlers.{forget, timeout_response}
use bzapi.Dispatch.Handlers.Change.{calls}
use bzapi.Dispatch.Handlers.Delivery.{handle_swarm_response-delivers}
use bzapi.Dispatch.Handlers.{handle_client_timeout}
use bzapi.Dispatch.Handlers.Responses.{
  handle_swarm_response-Accepted, handle_swarm_response-trusted, Accepted,
}
use bzapi.Dispatch.Run.Once.{run-calls_once, IsFresh}
use bzapi.Dispatch.Run.GivenUp.{run-given_up, run-client_timeout}
use bzapi.Dispatch.Run.Duplicate.{run-duplicate}
use bzapi.Dispatch.Run.Soundness.{run-IsSound, step-response-defined, IsSound, init-IsSound}
use bzapi.Examples.{toy_wire, toy_swarm, response_from, answer_of, signed_from}

abbrev read_key : DatabaseMsg
read_key = record { header = empty_header; request = Request.read (codes "key") }

abbrev asked : Event ℕ
asked = send 10 (toy_swarm 2) (codes "db") read_key normal 7

-- What is signed: the request.
abbrev sent_request : Envelope
sent_request = record empty_envelope { payload = Payload.database_msg (codes "request") }

abbrev waiting_info : Map Bytes DatabaseResponse → MsgInfo ℕ
waiting_info responses = record {
  swarm = toy_swarm 2;
  request = sent_request;
  policy = normal;
  responses_required = 2;
  retry_timer = some (Timer.waiting 1500);
  timeout_timer = Timer.waiting 10000;
  responses = responses;
  handler = 7;
}

abbrev waiting_for : Map Bytes DatabaseResponse → Dispatch ℕ
waiting_for responses = record { next_nonce = 2; messages = (1, waiting_info responses) ∷ [] }

abbrev settled : Dispatch ℕ
settled = record { next_nonce = 2; messages = [] }

abbrev asking : List (Effect ℕ)
asking =
    Effect.register_swarm_handler (toy_swarm 2)
    ∷ Effect.send_request (toy_swarm 2) sent_request normal
    ∷ []

-- Two nodes give the same answer, and the answer of the third is late.
run-calls_once_example : calls 1 (asking ++ (call 1 7 (answer_of 5) ∷ [])) ≤ 1
unfolding Run.run Run.step Dispatch.send_message_to_swarm Handlers.handle_swarm_response lookup
    insert erase Dispatch.qualify_response list_beq Dispatch.count_matches
    Dispatch.responses_are_equal
run-calls_once_example =
    run-calls_once toy_wire settled
      (asked
        ∷ response (response_from (codes "a") 5)
        ∷ response (response_from (codes "b") 5)
        ∷ response (response_from (codes "c") 5)
        ∷ [])
      (asking ++ (call 1 7 (answer_of 5) ∷ [])) 1 (omega arith) refl

-- Message 1 waits, and node "a" has given the answer that node "b" now gives.
abbrev one_answer : Dispatch ℕ
one_answer = waiting_for ((codes "a", answer_of 5) ∷ [])

handle_swarm_response-Accepted_example :
    (info : MsgInfo ℕ) × Accepted toy_wire one_answer
      (response_from (codes "b") 5)
      1
      (answer_of 5)
      info
    × (7 ≡ info.handler)
    × (settled ≡ forget one_answer 1)
    × (◌≡◌ {A = List (Effect ℕ)} [] [])
unfolding Handlers.handle_swarm_response lookup insert erase Dispatch.qualify_response list_beq
    Dispatch.count_matches Dispatch.responses_are_equal
handle_swarm_response-Accepted_example =
    handle_swarm_response-Accepted toy_wire one_answer (response_from (codes "b") 5) 1
      {s' = settled} {h = 7} {x = answer_of 5} {b = false} {rest = []} refl

-- Node "c" is faulty, and "a" and "b" agree.
handle_swarm_response-trusted_example :
    Dispatch.responses_are_equal toy_wire (answer_of 5) (answer_of 5) ≡ true
unfolding Handlers.handle_swarm_response lookup insert erase Dispatch.qualify_response list_beq
    Dispatch.count_matches Dispatch.responses_are_equal
handle_swarm_response-trusted_example =
    handle_swarm_response-trusted toy_wire one_answer (response_from (codes "b") 5) 1
      (waiting_info ((codes "a", answer_of 5) ∷ [])) (codes "c" ∷ []) (answer_of 5) {s' = settled}
      {h = 7} {x = answer_of 5} {b = false} {rest = []} refl (refl, tt) (λ _. refl, (λ _. refl, tt))
      (omega arith) refl

one_answer-IsFresh : IsFresh one_answer
unfolding lookup
one_answer-IsFresh = record { fresh = λ n le. ground arith }

-- The client's timeout comes, and then the answer that would have settled the message.
run-client_timeout_example :
    (rest : List (Effect ℕ)) × (call 1 7 timeout_response ∷ [] ≡ call 1 7 timeout_response ∷ rest)
    × (calls 1 rest ≡ 0)
unfolding Run.run Run.step Handlers.handle_swarm_response Handlers.handle_client_timeout lookup
    insert erase Dispatch.qualify_response list_beq Dispatch.count_matches
    Dispatch.responses_are_equal
run-client_timeout_example =
    run-client_timeout toy_wire one_answer settled 1 (response (response_from (codes "b") 5) ∷ [])
      (call 1 7 timeout_response ∷ []) refl one_answer-IsFresh (omega arith) refl

-- The request's time was out of the window: neither the answer nor the timeout reaches the caller.
run-given_up_example : calls {H = ℕ} 1 [] ≡ 0
unfolding Run.run Run.step Handlers.handle_swarm_response Handlers.handle_client_timeout lookup
    insert erase Handlers.handle_swarm_error list_beq stoull from_digits
run-given_up_example =
    run-given_up toy_wire one_answer settled 1
      (signed_from (codes "a") (Payload.swarm_error timestamp_error_msg))
      (record { message = timestamp_error_msg; error_data = codes "1" })
      (response (response_from (codes "b") 5) ∷ client_timeout no_error 1 ∷ []) []
      (record { parsed = refl; about = refl; nonzero = λ e. cc; known = refl }) (inl refl)
      one_answer-IsFresh (omega arith) refl

-- The swarm calls a request of policy `fastest` a duplicate.
run-duplicate_example :
    (Run.run toy_wire {H = ℕ} init (
        send 30 (toy_swarm 2) (codes "db") read_key fastest 7
        ∷ error (signed_from (codes "a") (Payload.swarm_error duplicate_error_msg))
        ∷ [])
      ≡ undefined)
    ↔ (fastest ≡ fastest)
unfolding stoull from_digits
run-duplicate_example =
    run-duplicate toy_wire init 30 (toy_swarm 2) (codes "db") read_key 7
      (signed_from (codes "a") (Payload.swarm_error duplicate_error_msg))
      (record { message = duplicate_error_msg; error_data = codes "1" }) fastest refl refl (λ e. cc)
      refl

one_answer-IsSound : IsSound one_answer
unfolding Run.run Run.step Dispatch.send_message_to_swarm Handlers.handle_swarm_response lookup
    insert erase Dispatch.qualify_response list_beq
one_answer-IsSound =
    run-IsSound toy_wire init one_answer (asked ∷ response (response_from (codes "a") 5) ∷ [])
      asking init-IsSound refl

-- Node "c" gives another answer, which is kept.
run-IsSound_example :
    IsSound (waiting_for ((codes "a", answer_of 5) ∷ (codes "c", answer_of 6) ∷ []))
unfolding Run.run Run.step Handlers.handle_swarm_response lookup insert erase
    Dispatch.qualify_response list_beq Dispatch.count_matches Dispatch.responses_are_equal
run-IsSound_example =
    run-IsSound toy_wire one_answer
      (waiting_for ((codes "a", answer_of 5) ∷ (codes "c", answer_of 6) ∷ []))
      (response (response_from (codes "c") 6) ∷ []) [] one_answer-IsSound refl

step-response-defined_example :
    Run.step toy_wire one_answer (response (response_from (codes "b") 5)) ≢ undefined
step-response-defined_example =
    step-response-defined toy_wire one_answer (response_from (codes "b") 5) one_answer-IsSound

-- The second of the two answers that are required comes, and the handler is called.
handle_swarm_response-delivers_example :
    Handlers.handle_swarm_response toy_wire (response_from (codes "b") 5) one_answer
    ≡ done (forget one_answer 1, call 1 7 (answer_of 5) ∷ [], false)
unfolding lookup insert list_beq Dispatch.responses_are_equal
handle_swarm_response-delivers_example =
    handle_swarm_response-delivers toy_wire one_answer (response_from (codes "b") 5) 1 (answer_of 5)
      (waiting_info ((codes "a", answer_of 5) ∷ []))
      (record {
        parsed = refl;
        about = refl;
        known = refl;
        signed = inl refl;
        enough = omega arith;
      })
      (omega arith) (λ e. ground arith)
