-- ===== src/Messages.antt =====
-- The protobuf messages (proto/bluzelle.proto, proto/status.proto, proto/database.proto) and the
-- constants of include/bluzelle.hpp. Fields that the program never touches (piggybacked_requests,
-- request_hash) are left out. How messages become bytes is protobuf's affair: `Wire`.
use bzapi.Base.{ℕ, Bool, List, Option}
use bzapi.Base.Text.{Bytes, codes}

-- The oneof of `bzn_envelope`: the case that is set, with its bytes.
pub data Payload : Type 0 where
  not_set : Payload
  database_msg : Bytes → Payload
  pbft_internal_request : Bytes → Payload
  database_response : Bytes → Payload
  json : Bytes → Payload
  audit : Bytes → Payload
  pbft : Bytes → Payload
  pbft_membership : Bytes → Payload
  status_request : Bytes → Payload
  status_response : Bytes → Payload
  checkpoint_msg : Bytes → Payload
  swarm_error : Bytes → Payload

-- `payload_case()`: the field number of the case that is set.
abbrev pub payload_case : Payload → ℕ
payload_case not_set = 0
payload_case (database_msg b) = 10
payload_case (pbft_internal_request b) = 11
payload_case (database_response b) = 12
payload_case (json b) = 13
payload_case (audit b) = 14
payload_case (pbft b) = 15
payload_case (pbft_membership b) = 16
payload_case (status_request b) = 17
payload_case (status_response b) = 18
payload_case (checkpoint_msg b) = 19
payload_case (swarm_error b) = 20

pub record Envelope : Type 0 where
  pub swarm_id : Bytes
  pub sender : Bytes
  pub signature : Bytes
  pub timestamp : ℕ
  pub payload : Payload

pub record SwarmError : Type 0 where
  pub message : Bytes
  pub error_data : Bytes

pub record Header : Type 0 where
  pub db_uuid : Bytes
  pub nonce : ℕ
  pub point_of_contact : Bytes

-- The oneof of `database_msg`, the requests that this library makes.
pub data Request : Type 0 where
  create update : Bytes → Bytes → ℕ → Request
  read quick_read delete_ has persist ttl : Bytes → Request
  keys size writers has_db : Request
  expire : Bytes → ℕ → Request
  add_writers remove_writers : List Bytes → Request
  create_db : ℕ → Bool → Request

pub record DatabaseMsg : Type 0 where
  pub header : Header
  pub request : Request

-- The oneof of `database_response`.
pub data Answer : Type 0 where
  not_set redirect subscription_update : Answer
  read : Bytes → Bytes → Answer
  quick_read : Bytes → Bytes → Bytes → Answer
  has : Bytes → Bool → Answer
  keys : List Bytes → Answer
  size : ℕ → ℕ → ℕ → ℕ → Answer
  error : Bytes → Answer
  has_db : Bytes → Bool → Answer
  writers : Bytes → List Bytes → Answer
  ttl : Bytes → ℕ → Answer

-- `response_case()`
abbrev pub response_case : Answer → ℕ
response_case Answer.not_set = 0
response_case Answer.redirect = 2
response_case Answer.subscription_update = 3
response_case (Answer.read k v) = 4
response_case (Answer.quick_read k v e) = 5
response_case (Answer.has k b) = 6
response_case (Answer.keys ks) = 7
response_case (Answer.size b k r m) = 8
response_case (Answer.error m) = 9
response_case (Answer.has_db u b) = 10
response_case (Answer.writers o ws) = 11
response_case (Answer.ttl k t) = 12

pub record DatabaseResponse : Type 0 where
  pub header : Header
  pub answer : Answer

-- include/bluzelle.hpp
abbrev pub timestamp_error_msg : Bytes
timestamp_error_msg = codes "INVALID TIMESTAMP"

abbrev pub too_large_error_msg : Bytes
too_large_error_msg = codes "REQUEST TOO LARGE"

abbrev pub too_busy_error_msg : Bytes
too_busy_error_msg = codes "SERVER TOO BUSY"

abbrev pub duplicate_error_msg : Bytes
duplicate_error_msg = codes "DUPLICATE REQUEST"

-- `send_policy` of swarm/swarm_base.hpp
pub data SendPolicy : Type 0 where
  normal fastest broadcast : SendPolicy

-- `db_error`
pub data DbError : Type 0 where
  success uninitialized connection_error database_error timeout_error : DbError
  already_exists no_space no_database : DbError

-- protobuf's `SerializeAsString` and `ParseFromString`, message by message.
pub record Wire : Type 0 where
  pub serialize_msg : DatabaseMsg → Bytes
  pub parse_msg : Bytes → Option DatabaseMsg
  pub serialize_response : DatabaseResponse → Bytes
  pub parse_response : Bytes → Option DatabaseResponse
  pub parse_error : Bytes → Option SwarmError
  pub serialize_envelope : Envelope → Bytes
  pub parse_envelope : Bytes → Option Envelope

-- `peer_address_t` of utils/peer_address.hpp. Ports are 16 bits wide.
pub record PeerAddress : Type 0 where
  pub host : Bytes
  pub port : ℕ
  pub http_port : ℕ
  pub name : Bytes
  pub uuid : Bytes
