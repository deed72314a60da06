-- ===== src/EsrClient.antt =====
-- utils/esr_peer_info.cpp: the calls of the ESR contract, as texts of the contract's ABI, and what its
-- answers say. The JSON library and the HTTP request (utils/http_req.cpp) are the parameter `Rpc`.
pub mod Hex
pub mod Replies
pub mod Words
pub mod Digits
pub mod Requests
pub mod Results
pub mod IdStrings
pub mod PeerIds
pub mod PeerName
pub mod PeerInfo
use bzapi.Base.{ℕ, ◌-◌, ◌/◌, ◌+◌, ◌%◌, ◌++◌, List, [], ◌∷◌, nat_beq, if◌then◌else◌, length}
use bzapi.Base.Text.{Bytes, codes}
use bzapi.Base.Outcome.{Outcome, done, threw, undefined, ◌>>=◌}
use bzapi.Messages.{PeerAddress}
use bzapi.EsrClient.Hex.{zeros, size_type_to_hex, string_to_hex}
use bzapi.EsrClient.Replies.{
  parse_get_peers_result_to_vector, parse_get_peer_info_result_to_peer_address,
}

abbrev pub required_size_multiple : ℕ
required_size_multiple = 64

abbrev pub parameter_offset : ℕ
parameter_offset = 64

abbrev pub get_swarms_address : Bytes
get_swarms_address = codes "0043d7e7"

abbrev pub get_peers_address : Bytes
get_peers_address = codes "46e76d8b"

abbrev pub get_peer_info_signature : Bytes
get_peer_info_signature = codes "0xcc8575cb"

-- The parameters of the JSON-RPC request: the call, and the block.
pub record Params : Type 0 where
  pub to : Bytes
  pub data_ : Bytes
  pub block : Bytes

pub record RpcRequest : Type 0 where
  pub jsonrpc : Bytes
  pub method : Bytes
  pub params : Params
  pub id : ℕ

-- `result_of` parses a response and takes its field "result", as a C string.
pub record Rpc : Type 0 where
  pub write_string : RpcRequest → Bytes
  pub sync_req : Bytes → Bytes → Outcome Bytes
  pub result_of : Bytes → Outcome Bytes

abbrev pub make_params : Bytes → Bytes → Params
make_params to_hex data_hex = record {
  to = codes "0x" ++ to_hex;
  data_ = data_hex;
  block = codes "latest";
}

abbrev pub make_request : Rpc → Bytes → Bytes → Bytes
make_request rpc to_hex data_hex = rpc.write_string (record {
  jsonrpc = codes "2.0";
  method = codes "eth_call";
  params = make_params to_hex data_hex;
  id = 1;
})

pub pad_str_to_mod_64 : Bytes → Bytes
pad_str_to_mod_64 parameter =
    let remainder = length parameter % required_size_multiple in
    if nat_beq remainder 0
    then parameter
    else parameter ++ zeros (required_size_multiple - remainder)

data_string_for_get_swarms : Bytes
unfolding pad_str_to_mod_64
data_string_for_get_swarms = codes "0x" ++ pad_str_to_mod_64 get_swarms_address

pub data_string_for_get_peers : Bytes → Bytes
unfolding pad_str_to_mod_64 size_type_to_hex string_to_hex
data_string_for_get_peers swarm_id =
    codes "0x"
    ++ (pad_str_to_mod_64 get_peers_address
        ++ (pad_str_to_mod_64 (codes "00000020")
            ++ (size_type_to_hex (length swarm_id) 8
                ++ pad_str_to_mod_64 (string_to_hex swarm_id))))

-- The size of a parameter and its bytes.
pub parameter_text : Bytes → Bytes
unfolding pad_str_to_mod_64 size_type_to_hex string_to_hex
parameter_text value = size_type_to_hex (length value) 64 ++ pad_str_to_mod_64 (string_to_hex value)

pub data_string_for_get_peer_info : Bytes → Bytes → Bytes
unfolding parameter_text size_type_to_hex
data_string_for_get_peer_info swarm_id peer_id =
    let swarm_id_parameter = parameter_text swarm_id in
    let peer_id_parameter = parameter_text peer_id in
    let preamble =
      get_peer_info_signature
      ++ (size_type_to_hex parameter_offset 64
          ++ size_type_to_hex (parameter_offset + length swarm_id_parameter / 2) 64) in
    preamble ++ (swarm_id_parameter ++ peer_id_parameter)

-- `+ 2` on a C string: past its end in a text of fewer than two characters.
skip_prefix : Bytes → Outcome Bytes
skip_prefix (x ∷ y ∷ result) = done result
skip_prefix result = undefined

module _ (rpc : Rpc) where
  -- A call of the contract, up to the result's text.
  call_contract : Bytes → Bytes → Bytes → Outcome Bytes
  unfolding skip_prefix
  call_contract esr_address url data_hex = do
    response ← rpc.sync_req url (make_request rpc esr_address data_hex)
    result ← rpc.result_of response
    skip_prefix result

  unfoldable pub get_swarm_ids : Bytes → Bytes → Outcome (List Bytes)
  unfolding call_contract data_string_for_get_swarms parse_get_peers_result_to_vector
  get_swarm_ids esr_address url = do
    result ← call_contract esr_address url data_string_for_get_swarms
    parse_get_peers_result_to_vector result

  unfoldable pub get_peer_ids : Bytes → Bytes → Bytes → Outcome (List Bytes)
  unfolding call_contract data_string_for_get_peers parse_get_peers_result_to_vector
  get_peer_ids swarm_id esr_address url = do
    result ← call_contract esr_address url (data_string_for_get_peers swarm_id)
    parse_get_peers_result_to_vector result

  unfoldable pub get_peer_info : Bytes → Bytes → Bytes → Bytes → Outcome PeerAddress
  unfolding call_contract data_string_for_get_peer_info parse_get_peer_info_result_to_peer_address
  get_peer_info swarm_id peer_id esr_address url = do
    result ← call_contract esr_address url (data_string_for_get_peer_info swarm_id peer_id)
    parse_get_peer_info_result_to_peer_address peer_id result
