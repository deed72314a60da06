-- ===== src/Dispatch/Uuid.antt =====
-- database/db_dispatch.cpp: `has_uuid` and `create_uuid`, requests whose handler turns the answer into
-- a `db_error` for a callback.
pub mod Results
use bzapi.Base.{ℕ, List, [], ◌∷◌, Bool, true, false, if◌then◌else◌, ◌==◌, list_eq}
use bzapi.Base.Text.{Bytes}
use bzapi.Messages.{
  Answer, DatabaseMsg, DatabaseResponse, DbError, success, database_error, no_database, Request,
  normal, Wire,
}
use bzapi.Dispatch.{
  Dispatch, Effect, SwarmBase, empty_header, register_swarm_handler, send_message_to_swarm,
}

-- `has_db()` of an answer: empty where another case is set.
abbrev pub has_db_of : Answer → Bytes × Bool
has_db_of (Answer.has_db uuid has) = (uuid, has)
has_db_of _ = ([], false)

abbrev pub has_error : Answer → Bool
has_error (Answer.error m) = true
has_error _ = false

-- The handler of `has_uuid`: what its callback is called with. The last argument says whether the
-- call failed.
pub has_uuid_result : Bytes → DatabaseResponse → Bool → DbError
has_uuid_result db_uuid response true = database_error
has_uuid_result db_uuid response false =
    if has_error response.answer
    then database_error
    else if (has_db_of response.answer).0 == db_uuid
    then if (has_db_of response.answer).1 then success else no_database
    else database_error

pub create_uuid_result : DatabaseResponse → Bool → DbError
create_uuid_result response true = database_error
create_uuid_result response false = if has_error response.answer then database_error else success

-- A handler: the callback, and what it is called with.
pub record UuidHandler : Type 0 where
  pub callback : ℕ
  pub result : DatabaseResponse → Bool → DbError

-- `register_swarm_handler`, and then the request, which registers once more.
abbrev pub handlers_registered :
    SwarmBase
    → Dispatch UuidHandler × List (Effect UuidHandler)
    → Dispatch UuidHandler × List (Effect UuidHandler)
handlers_registered swarm (s, out) = (s, register_swarm_handler swarm ∷ out)

pub has_uuid :
    Wire
    → ℕ
    → SwarmBase
    → Bytes
    → ℕ
    → Dispatch UuidHandler
    → Dispatch UuidHandler × List (Effect UuidHandler)
unfolding has_uuid_result
has_uuid w timeout swarm db_uuid callback s = handlers_registered swarm (
    send_message_to_swarm w timeout swarm db_uuid
      (record { header = empty_header; request = Request.has_db }) normal
      (record { callback = callback; result = has_uuid_result db_uuid }) s)

pub create_uuid :
    Wire
    → ℕ
    → SwarmBase
    → Bytes
    → ℕ
    → Bool
    → ℕ
    → Dispatch UuidHandler
    → Dispatch UuidHandler × List (Effect UuidHandler)
unfolding create_uuid_result
create_uuid w timeout swarm db_uuid max_size random_evict callback s = handlers_registered swarm (
    send_message_to_swarm w timeout swarm db_uuid
      (record { header = empty_header; request = Request.create_db max_size random_evict }) normal
      (record { callback = callback; result = create_uuid_result }) s)
