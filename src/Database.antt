-- ===== src/Database.antt =====
-- database/async_database_impl.cpp: what each database operation asks of the swarm, and what its
-- caller is told. A `Call` is what an operation hands to `send_message_to_swarm`.
pub mod Operations
pub mod Replies
pub mod Sync
pub mod Timeouts
pub mod Status
use bzapi.Base.{ℕ, List, [], ◌∷◌, ◌++◌, Bool, true, false, Option, none, some, if◌then◌else◌}
use bzapi.Base.Text.{Bytes, codes, is_empty}
use bzapi.Base.Outcome.{Outcome}
use bzapi.Messages.{
  Request, DatabaseMsg, Answer, DatabaseResponse, SendPolicy, normal, DbError, success,
  uninitialized, connection_error, database_error, timeout_error, already_exists, no_space,
  no_database, Wire,
}
use bzapi.Dispatch.{Dispatch, Effect, SwarmBase, empty_header, send_message_to_swarm}
use bzapi.Response.{Response, set_result, set_value, set_error}

-- The JSON values that the library makes; `array` is a list of strings.
pub data Json : Type 0 where
  null : Json
  number : ℕ → Json
  boolean : Bool → Json
  text : Bytes → Json
  array : List Bytes → Json

abbrev pub Object : Type 0
Object = List (Bytes × Json)

-- A value to which nothing was appended is null.
abbrev pub strings : List Bytes → Json
strings [] = Json.null
strings (s ∷ ss) = Json.array (s ∷ ss)

-- `static_cast<int>` of a `db_error`.
abbrev pub error_code : DbError → ℕ
error_code success = 0
error_code uninitialized = 1
error_code connection_error = 2
error_code database_error = 3
error_code timeout_error = 4
error_code already_exists = 5
error_code no_space = 6
error_code no_database = 7

-- What is set on a response: its result, then its error (0 by `set_ready`).
pub record Completion : Type 0 where
  pub result : Object
  pub error : ℕ

-- A handler: the response that it completes, and how. The second argument of the function is the
-- error code of the call, `none` for success and its message otherwise.
abbrev pub Reply : Type 0
Reply = DatabaseResponse → Option Bytes → Completion

pub record Handler : Type 0 where
  pub resp : ℕ
  pub reply : Reply

abbrev pub failed : Bytes → DbError → Completion
failed message e = record { result = (codes "error", Json.text message) ∷ []; error = error_code e }

abbrev pub ready : Object → Completion
ready fields = record { result = fields; error = 0 }

abbrev pub result_one : Bytes × Json
result_one = (codes "result", Json.number 1)

-- The part of `translate_swarm_response` that looks at the response.
translate_answer : Answer → (Answer → Object) → Completion
translate_answer (Answer.error message) handler = failed message database_error
translate_answer answer handler = ready (handler answer)

pub translate_swarm_response : (Answer → Object) → Reply
unfolding translate_answer
translate_swarm_response handler r (some message) = failed message connection_error
translate_swarm_response handler r none = translate_answer r.answer handler

pub record Call : Type 0 where
  pub request : Request
  pub policy : SendPolicy
  pub reply : Reply

basic_reply : Reply
unfolding translate_swarm_response
basic_reply = translate_swarm_response (λ answer. result_one ∷ [])

pub send_message_with_basic_response : Request → Call
unfolding basic_reply
send_message_with_basic_response request = record {
  request = request;
  policy = normal;
  reply = basic_reply;
}

pub data InitState : Type 0 where
  not_opened initializing initialized : InitState

pub record AsyncDatabase : Type 0 where
  pub swarm : SwarmBase
  pub uuid : Bytes
  pub state : InitState

-- `open`: whether the swarm is initialized. The handler of that is `opened`.
unfoldable open_database : AsyncDatabase → AsyncDatabase × Bool
open_database db = elim db.state [
  | not_opened ↦ (record db { state = initializing }, true)
  | initializing ↦ (db, false)
  | initialized ↦ (db, false)
]

-- The callback of the swarm's initialization; the caller's handler gets the same error code.
unfoldable pub opened : Option Bytes → AsyncDatabase → AsyncDatabase
opened none db = record db { state = initialized }
opened (some message) db = db

-- `send_message_to_swarm` of an operation, for the response `resp`.
pub submit :
    Wire
    → ℕ
    → AsyncDatabase
    → Call
    → ℕ
    → Dispatch Handler
    → Dispatch Handler × List (Effect Handler)
submit w timeout db c resp s =
    send_message_to_swarm w timeout db.swarm db.uuid
      (record { header = empty_header; request = c.request }) c.policy
      (record { resp = resp; reply = c.reply }) s

-- A response whose caller goes on while `set_error` is still at work: the promise has its value, and
-- the error is not set yet.
pub released : {D : Type 0} → (Object → Bytes) → Completion → Response D → Outcome (Response D)
unfolding set_value
released styled c r = set_value c.error (set_result (styled c.result) r)

-- A handler's two calls on its response; `styled` is `toStyledString`.
pub complete : {D : Type 0} → (Object → Bytes) → Completion → Response D → Outcome (Response D)
complete styled c r = set_error c.error (set_result (styled c.result) r)
