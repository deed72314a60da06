-- ===== src/Dispatch/Handlers.antt =====
-- database/db_dispatch.cpp: what a response, an error message or a timer does to the dispatcher.
pub mod Change
pub mod Steps
pub mod Errors
pub mod Timers
pub mod Responses
pub mod Delivery
use bzapi.Base.{
  ℕ, List, [], ◌∷◌, Bool, true, false, not, ◌&&◌, Option, none, some, if◌then◌else◌, nat_beq, ◌==◌,
  list_eq, nat_eq,
}
use bzapi.Base.Text.{Bytes, codes, is_empty}
use bzapi.Base.Map.{Map, lookup, insert, erase}
use bzapi.Base.Decimal.{stoull}
use bzapi.Base.Outcome.{Outcome, done, undefined, ◌>>=◌}
use bzapi.Messages.{
  Envelope, SwarmError, DatabaseMsg, Answer, DatabaseResponse, SendPolicy, broadcast, Wire,
  timestamp_error_msg, too_large_error_msg, too_busy_error_msg, duplicate_error_msg,
}
use bzapi.Dispatch.{
  Dispatch, MsgInfo, Effect, send_request, call, SwarmBase, Timer, waiting, cancelled, ErrorCode,
  no_error, operation_aborted, other_error, broadcast_retry_time, database_response_of,
  swarm_error_of, has_quick_read, default_response, empty_header, at, qualify_response,
  send_message_to_swarm,
}

-- A handler's new state, what it did, and what it returned.
abbrev pub Step : Type 0 → Type 0 → Type 0
Step H R = Outcome (Dispatch H × List (Effect H) × R)

abbrev pub timeout_response : DatabaseResponse
timeout_response = record { header = empty_header; answer = Answer.error (codes "Request timeout") }

abbrev nonce_of : Option ℕ → ℕ
nonce_of none = 0
nonce_of (some n) = n

abbrev pub outcome : {H R : Type 0} → Step H R → Outcome (Dispatch H × List (Effect H))
outcome m = m >>= λ r. done (r.0, r.1)

module _ {H : Type 0} where
  -- `i->second = info`: an entry of the map is replaced.
  abbrev pub store : Dispatch H → ℕ → MsgInfo H → Dispatch H
  store s nonce info = record s { messages = insert nonce info s.messages }

  abbrev pub forget : Dispatch H → ℕ → Dispatch H
  forget s nonce = record s { messages = erase nonce s.messages }

  -- The timer is shared with the entry of the map, so what is set here is set there.
  pub rearm : Dispatch H → ℕ → MsgInfo H → Option Timer → Step H (Unit {0})
  rearm s nonce info none = undefined
  rearm s nonce info (some t) = done (
    store s nonce (record info { retry_timer = some (waiting broadcast_retry_time) }),
    send_request info.swarm info.request broadcast ∷ [],
    tt,
  )

  pub retry_message : Dispatch H → ℕ → Option (MsgInfo H) → Step H (Unit {0})
  unfolding rearm
  retry_message s nonce none = done (s, [], tt)
  retry_message s nonce (some info) = rearm s nonce info info.retry_timer

  pub handle_request_timeout : ErrorCode → ℕ → Dispatch H → Step H (Unit {0})
  unfolding retry_message
  handle_request_timeout operation_aborted nonce s = done (s, [], tt)
  handle_request_timeout other_error nonce s = done (s, [], tt)
  handle_request_timeout no_error nonce s = retry_message s nonce (lookup nonce s.messages)

  pub give_up : Dispatch H → ℕ → Option (MsgInfo H) → Dispatch H × List (Effect H)
  give_up s nonce none = (s, [])
  give_up s nonce (some info) = (forget s nonce, call nonce info.handler timeout_response ∷ [])

  -- The handler that `setup_client_timeout` sets for the timer.
  unfoldable pub handle_client_timeout : ErrorCode → ℕ → Dispatch H → Dispatch H × List (Effect H)
  unfolding give_up
  handle_client_timeout no_error nonce s = give_up s nonce (lookup nonce s.messages)
  handle_client_timeout _ nonce s = (s, [])

  pub cancel_retry : Dispatch H → ℕ → MsgInfo H → Option Timer → Step H Bool
  cancel_retry s nonce info none = undefined
  cancel_retry s nonce info (some t) =
      done (store s nonce (record info { retry_timer = some cancelled }), [], false)

  -- The ladder on `err.message()`.
  pub error_message : Dispatch H → ℕ → Bytes → Option (MsgInfo H) → Step H Bool
  unfolding cancel_retry
  error_message s nonce message none = done (s, [], false)
  error_message s nonce message (some info) =
      if message == timestamp_error_msg
      then done (forget s nonce, [], false)
      else if message == too_large_error_msg
      then done (forget s nonce, [], false)
      else if message == too_busy_error_msg
      then done (s, [], false)
      else if message == duplicate_error_msg
      then cancel_retry s nonce info info.retry_timer
      else done (s, [], false)

  error_data : Dispatch H → Option SwarmError → Step H Bool
  unfolding error_message
  error_data s none = done (s, [], true)
  error_data s (some err) =
      let nonce = nonce_of (stoull err.error_data) in
      if nat_beq nonce 0
      then done (s, [], true)
      else error_message s nonce err.message (lookup nonce s.messages)

  pub deliver : Dispatch H → ℕ → Bytes → MsgInfo H → Bool → Dispatch H × List (Effect H) × Bool
  deliver s nonce sender info true = (
    forget s nonce,
    call nonce info.handler (at default_response sender info.responses) ∷ [],
    false,
  )
  deliver s nonce sender info false = (store s nonce info, [], false)

module _ (w : Wire) {H : Type 0} where
  -- `true` asks the node to close the connection.
  unfoldable pub handle_swarm_error : Envelope → Dispatch H → Step H Bool
  unfolding error_data
  handle_swarm_error response s = error_data s (w.parse_error (swarm_error_of response.payload))

  pub collect : Dispatch H → ℕ → Bytes → Bool → DatabaseResponse → Option (MsgInfo H) → Step H Bool
  unfolding deliver
  collect s nonce sender unsigned r none = done (s, [], false)
  collect s nonce sender unsigned r (some info) =
      if not (has_quick_read r.answer) && unsigned
      then done (s, [], false)
      else let info' = record info { responses = insert sender r info.responses } in
        qualify_response w info' sender >>= λ qualified.
        done (deliver s nonce sender info' qualified)

  unfoldable pub handle_swarm_response : Envelope → Dispatch H → Step H Bool
  unfolding collect
  handle_swarm_response response s =
      elim (w.parse_response (database_response_of response.payload)) [
        | none ↦ done (s, [], true)
        | some r ↦
            collect s r.header.nonce response.sender (is_empty response.signature) r
              (lookup r.header.nonce s.messages)
      ]
