-- ===== src/Dispatch.antt =====
-- database/db_dispatch.cpp: requests sent to a swarm, and the responses, errors and timers that end
-- them. A call of a handler or of the swarm is an effect; a handler that calls back into the
-- dispatcher is a later event. `H` is the type of the callers' handlers.
pub mod Handlers
pub mod Run
pub mod Qualify
pub mod Quorum
pub mod Uuid
use bzapi.Base.{
  ℕ, ◌+◌, ◌*◌, ◌%◌, ◌^◌, List, [], ◌∷◌, ◌++◌, Bool, true, false, not, ◌&&◌, Option, none, some,
  if◌then◌else◌, ltb, leb, nat_beq, ◌==◌, list_eq, nat_eq, length,
}
use bzapi.Base.Text.{Bytes, codes, is_empty}
use bzapi.Base.Map.{Map, lookup, insert, erase}
use bzapi.Base.Decimal.{stoull}
use bzapi.Base.Outcome.{Outcome, done, undefined, ◌>>=◌}
use bzapi.Messages.{
  Payload, Envelope, SwarmError, Header, Request, DatabaseMsg, Answer, response_case,
  DatabaseResponse, SendPolicy, normal, fastest, broadcast, Wire, timestamp_error_msg,
  too_large_error_msg, too_busy_error_msg, duplicate_error_msg,
}

abbrev pub request_retry_time : ℕ
request_retry_time = 1500

abbrev pub broadcast_retry_time : ℕ
broadcast_retry_time = 3000

-- A steady timer: idle, waiting for so many milliseconds, or cancelled.
pub data Timer : Type 0 where
  idle : Timer
  waiting : ℕ → Timer
  cancelled : Timer

-- What a timer's handler is called with.
pub data ErrorCode : Type 0 where
  no_error operation_aborted other_error : ErrorCode

-- What the dispatcher uses of a `swarm_base`.
pub record SwarmBase : Type 0 where
  pub swarm_id : Bytes
  pub sign_and_date_request : Envelope → SendPolicy → Envelope
  pub honest_majority_size : ℕ

-- `retry_timer` is `none` where the shared pointer is null.
pub record MsgInfo (H : Type 0) : Type 0 where
  pub swarm : SwarmBase
  pub request : Envelope
  pub policy : SendPolicy
  pub responses_required : ℕ
  pub retry_timer : Option Timer
  pub timeout_timer : Timer
  pub responses : Map Bytes DatabaseResponse
  pub handler : H

pub record Dispatch (H : Type 0) : Type 0 where
  pub next_nonce : ℕ
  pub messages : Map ℕ (MsgInfo H)

-- A call of a swarm, or of the handler of the message with this nonce.
pub data Effect (H : Type 0) : Type 0 where
  register_swarm_handler : SwarmBase → Effect H
  send_request : SwarmBase → Envelope → SendPolicy → Effect H
  call : ℕ → H → DatabaseResponse → Effect H

abbrev pub init : {H : Type 0} → Dispatch H
init = record { next_nonce = 1; messages = [] }

abbrev pub empty_envelope : Envelope
empty_envelope = record {
  swarm_id = [];
  sender = [];
  signature = [];
  timestamp = 0;
  payload = Payload.not_set;
}

abbrev pub empty_header : Header
empty_header = record { db_uuid = []; nonce = 0; point_of_contact = [] }

abbrev pub default_response : DatabaseResponse
default_response = record { header = empty_header; answer = Answer.not_set }

-- `database_response()` and `swarm_error()` of an envelope: empty where another case is set.
abbrev pub database_response_of : Payload → Bytes
database_response_of (Payload.database_response b) = b
database_response_of _ = []

abbrev pub swarm_error_of : Payload → Bytes
swarm_error_of (Payload.swarm_error b) = b
swarm_error_of _ = []

abbrev pub has_quick_read : Answer → Bool
has_quick_read (Answer.quick_read k v e) = true
has_quick_read _ = false

abbrev policy_beq : SendPolicy → SendPolicy → Bool
policy_beq normal normal = true
policy_beq fastest fastest = true
policy_beq broadcast broadcast = true
policy_beq _ _ = false

-- `responses[sender]` of the map of responses.
abbrev pub at : {V : Type 0} → V → Bytes → Map Bytes V → V
at d k m = elim (lookup k m) [ none ↦ d | some v ↦ v ]

-- `msg_info info;` and the three fields that are set first; `policy` is set below.
abbrev new_message : {H : Type 0} → SwarmBase → Envelope → SendPolicy → H → MsgInfo H
new_message swarm env policy handler = record {
  swarm = swarm;
  request = env;
  policy = policy;
  responses_required = 0;
  retry_timer = none;
  timeout_timer = idle;
  responses = [];
  handler = handler;
}

module _ {H : Type 0} where
  -- The two timers are set before the entry is stored.
  pub setup_client_timeout : ℕ → MsgInfo H → MsgInfo H
  setup_client_timeout timeout info = record info { timeout_timer = waiting (timeout * 1000) }

  pub setup_request_policy : MsgInfo H → SendPolicy → MsgInfo H
  setup_request_policy info policy =
      if not (policy_beq policy fastest)
      then record info {
        policy = policy;
        responses_required = info.swarm.honest_majority_size;
        retry_timer = some (waiting request_retry_time);
      }
      else record info { policy = policy; responses_required = 1 }

module _ (w : Wire) {H : Type 0} where
  -- `timeout` is `get_timeout()`, in seconds.
  unfoldable pub send_message_to_swarm :
      ℕ
      → SwarmBase
      → Bytes
      → DatabaseMsg
      → SendPolicy
      → H
      → Dispatch H
      → Dispatch H × List (Effect H)
  unfolding setup_client_timeout setup_request_policy
  send_message_to_swarm timeout swarm db_uuid msg policy handler s =
      let nonce = s.next_nonce in
      let msg' = record msg { header = record msg.header { db_uuid = db_uuid; nonce = nonce } } in
      let unsigned = record empty_envelope {
        payload = Payload.database_msg (w.serialize_msg msg');
      } in
      let env = swarm.sign_and_date_request unsigned policy in
      let info = new_message swarm env policy handler in
      let info' = setup_request_policy (setup_client_timeout timeout info) policy in
      (
        record { next_nonce = (nonce + 1) % 2 ^ 64; messages = insert nonce info' s.messages },
        register_swarm_handler swarm ∷ send_request swarm env policy ∷ [],
      )

module _ (w : Wire) where
  unfoldable pub responses_are_equal : DatabaseResponse → DatabaseResponse → Bool
  responses_are_equal r1 r2 =
      nat_beq (response_case r1.answer) (response_case r2.answer)
      && w.serialize_response r1 == w.serialize_response r2

  -- The loop over the responses; `matches` is the count before it.
  unfoldable pub count_matches : ℕ → DatabaseResponse → ℕ → Map Bytes DatabaseResponse → Bool
  count_matches required mine matches [] = false
  count_matches required mine matches ((k, r) ∷ rs) =
      let go_on = count_matches required mine (matches + 1) rs in
      let skip = count_matches required mine matches rs in
      if responses_are_equal r mine
      then if leb required (matches + 1) then true else go_on
      else skip

module _ (w : Wire) {H : Type 0} where
  -- A failed `assert` is no defined outcome.
  unfoldable pub qualify_response : MsgInfo H → Bytes → Outcome Bool
  qualify_response info sender =
      let num_responses = length info.responses in
      if ltb num_responses info.responses_required
      then done false
      else if nat_beq info.responses_required 1
      then if nat_beq num_responses 1 then done true else undefined
      else if ltb 1 info.responses_required
      then done (
          count_matches w info.responses_required (at default_response sender info.responses) 0
            info.responses)
      else done false
