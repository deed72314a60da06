-- ===== src/Examples.antt =====
-- Concrete parameters and data, on which the theorems are tried.
mod Requests
mod Signatures
mod Swarms
mod Connections
mod Callers
mod Factories
mod Contracts
mod Entries
mod Quorums
mod Commands
mod Urls
use bzapi.Base.{ℕ, List, [], ◌∷◌, Bool, true, false, Option, none, some}
use bzapi.Base.Text.{Bytes, codes}
use bzapi.Base.Map.{Map}
use bzapi.Messages.{
  Payload, Envelope, SwarmError, DatabaseMsg, Request, Answer, DatabaseResponse, SendPolicy, Wire,
}
use bzapi.Dispatch.{SwarmBase, empty_header, empty_envelope}

-- The answer that a node sends as the one byte of its value; it is about message 1.
abbrev pub answer_of : ℕ → DatabaseResponse
answer_of x = record {
  header = record empty_header { nonce = 1 };
  answer = Answer.read (codes "key") (x ∷ []);
}

abbrev pub value_of : Answer → Bytes
value_of (Answer.read k v) = v
value_of _ = []

abbrev parse_answer : Bytes → Option DatabaseResponse
parse_answer [] = none
parse_answer (x ∷ rest) = some (answer_of x)

-- An error about message 1, the whole of whose bytes are the message.
abbrev parse_error_text : Bytes → Option SwarmError
parse_error_text [] = none
parse_error_text (x ∷ rest) = some (record { message = x ∷ rest; error_data = codes "1" })

abbrev pub signed_from : Bytes → Payload → Envelope
signed_from sender payload = record empty_envelope {
  sender = sender;
  signature = codes "s";
  payload = payload;
}

-- An envelope of one byte is an unsigned message from node "b", or one that is signed.
abbrev parse_message : Bytes → Option Envelope
parse_message [] = none
parse_message (x ∷ []) = some (record empty_envelope { sender = x ∷ [] })
parse_message (x ∷ rest) = some (signed_from (x ∷ []) (Payload.swarm_error rest))

abbrev pub toy_wire : Wire
toy_wire = record {
  serialize_msg = λ m. codes "request";
  parse_msg = λ b. none;
  serialize_response = λ r. value_of r.answer;
  parse_response = parse_answer;
  parse_error = parse_error_text;
  serialize_envelope = λ e. e.sender;
  parse_envelope = parse_message;
}

-- A swarm that asks for so many equal responses, and signs nothing.
abbrev pub toy_swarm : ℕ → SwarmBase
toy_swarm quorum = record {
  swarm_id = codes "swarm";
  sign_and_date_request = λ env policy. env;
  honest_majority_size = quorum;
}

abbrev pub response_from : Bytes → ℕ → Envelope
response_from sender x = signed_from sender (Payload.database_response (x ∷ []))
