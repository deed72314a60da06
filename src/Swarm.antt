-- ===== src/Swarm.antt =====
-- swarm/swarm.cpp: the nodes of a swarm, what is sent to them, signing, and the size of an honest
-- majority. Calls of nodes, timers and handlers are effects. `H` is the type of the handlers that
-- others register. What jsoncpp makes of a status is the field `module_status` of `StatusWire`.
pub mod Status
pub mod Incoming
pub mod Usable
pub mod Majority
pub mod Routing
pub mod Refresh
pub mod Refused
pub mod Unread
pub mod Fastest
pub mod Report
pub mod History
use bzapi.Base.{
  ℕ, ◌+◌, ◌-◌, ◌*◌, ◌/◌, ◌%◌, ◌^◌, List, [], ◌∷◌, ◌++◌, Bool, true, false, Option, none, some,
  if◌then◌else◌, length, ◌==◌, list_eq, nat_eq, map,
}
use bzapi.Base.Text.{Bytes}
use bzapi.Base.Map.{Map, lookup, insert}
use bzapi.Base.Outcome.{Outcome, done, threw, undefined, ◌>>=◌}
use bzapi.Messages.{
  Payload, Envelope, Header, DatabaseMsg, SendPolicy, normal, fastest, broadcast, Wire,
}
use bzapi.Crypto.{OpenSsl, sign}

pub record Address : Type 0 where
  pub host : Bytes
  pub port : ℕ

-- `node_info`. `has_node` says whether the shared pointer `node` is set; times are in microseconds.
pub record NodeInfo : Type 0 where
  pub has_node : Bool
  pub host : Bytes
  pub port : ℕ
  pub last_status_request_sent : ℕ
  pub last_status_duration : ℕ
  pub last_message_sent : ℕ
  pub last_message_received : ℕ

abbrev pub default_info : NodeInfo
default_info = record {
  has_node = false;
  host = [];
  port = 0;
  last_status_request_sent = 0;
  last_status_duration = 0;
  last_message_sent = 0;
  last_message_received = 0;
}

abbrev pub NodeMap : Type 0
NodeMap = Map Bytes NodeInfo

pub record Peer : Type 0 where
  pub uuid : Bytes
  pub host : Bytes
  pub port : ℕ

-- `module[0].status` of the JSON text in a status response.
pub record ModuleStatus : Type 0 where
  pub peer_index : List Peer
  pub primary : Bytes

pub record StatusResponse : Type 0 where
  pub swarm_version : Bytes
  pub swarm_git_commit : Bytes
  pub uptime : Bytes
  pub module_status_json : Bytes

pub record StatusWire : Type 0 where
  pub status_request : Bytes
  pub parse_status : Bytes → Option StatusResponse
  pub module_status : Bytes → Outcome ModuleStatus

-- A registered handler: the swarm's own, or another's.
pub data ResponseHandler (H : Type 0) : Type 0 where
  own_status : ResponseHandler H
  registered : H → ResponseHandler H

-- `nodes` is `none` where the shared pointer is null.
pub record Swarm (H : Type 0) : Type 0 where
  pub swarm_id : Bytes
  pub my_uuid : Bytes
  pub init_called : Bool
  pub initial_nodes : List (Bytes × Address)
  pub init_handler : Option H
  pub response_handlers : Map ℕ (ResponseHandler H)
  pub nodes : Option NodeMap
  pub fastest_node : Bytes
  pub primary_node : Bytes
  pub last_status : Option StatusResponse

pub data Effect (H : Type 0) : Type 0 where
  create_node : Bytes → Bytes → ℕ → Effect H
  send_message : Bytes → Bytes → Effect H
  send_status : Bytes → Bytes → Effect H
  start_status_timer : Bytes → Effect H
  back_off : Bytes → Bool → Effect H
  in_progress init_done : H → Effect H

abbrev pub add_node : Address → NodeInfo
add_node addr = record default_info { has_node = true; host = addr.host; port = addr.port }

-- The loop of `add_nodes`.
unfoldable pub node_map : List (Bytes × Address) → NodeMap → NodeMap
node_map [] m = m
node_map ((id, addr) ∷ rest) m = node_map rest (insert id (add_node addr) m)

-- The quorum among `n` nodes: `size_t` wraps around at no nodes.
pub majority : ℕ → ℕ
majority n = (n + (2 ^ 64 - 1)) % 2 ^ 64 / 3 * 2 + 1

module _ {H : Type 0} where
  abbrev pub created : Bytes × Address → Effect H
  created (id, addr) = create_node id addr.host addr.port

  -- `init_nodes` with `add_nodes`, which is never called with an empty list. To make a node is to
  -- resolve its host, which boost asio does; this is the effect `create_node`, and it is taken to
  -- succeed here: where it throws, the histories of the swarm end.
  set_nodes : List (Bytes × Address) → Swarm H → Swarm H × List (Effect H)
  unfolding node_map
  set_nodes [] s = (s, [])
  set_nodes ((id, addr) ∷ rest) s = (
    record s {
      initial_nodes = [];
      nodes = some (node_map ((id, addr) ∷ rest) []);
      primary_node = id;
      fastest_node = id;
    },
    map created ((id, addr) ∷ rest),
  )

  unfoldable pub init_nodes : Swarm H → Swarm H × List (Effect H)
  unfolding set_nodes
  init_nodes s = set_nodes s.initial_nodes s

  -- `*nodes` of a null pointer is undefined.
  unfoldable pub get_nodes : Swarm H → Outcome NodeMap
  get_nodes s = elim s.nodes [ none ↦ undefined | some m ↦ done m ]

  unfoldable pub honest_majority_size : Swarm H → Outcome (Swarm H × ℕ)
  unfolding init_nodes majority
  honest_majority_size s = do
    m ← get_nodes (init_nodes s).0
    done ((init_nodes s).0, majority (length m))

  -- `insert` keeps a handler that is there.
  pub register_response_handler : ℕ → ResponseHandler H → Swarm H → Swarm H × Bool
  register_response_handler type handler s = elim (lookup type s.response_handlers) [
    | none ↦ (record s { response_handlers = insert type handler s.response_handlers }, true)
    | some h ↦ (s, false)
  ]

  abbrev pub point_of_contact : SendPolicy → Swarm H → Bytes
  point_of_contact fastest s = s.fastest_node
  point_of_contact _ s = s.primary_node

module _ (w : Wire) {H : Type 0} where
  -- The point of contact, in a database message that parses.
  set_contact : SendPolicy → Swarm H → Payload → Payload
  set_contact policy s (Payload.database_msg b) = elim (w.parse_msg b) [
    | none ↦ Payload.database_msg b
    | some msg ↦ Payload.database_msg (
        w.serialize_msg (record msg {
          header = record msg.header { point_of_contact = point_of_contact policy s };
        }))
  ]
  set_contact policy s p = p

  -- `now` is the system clock's time in milliseconds.
  pub sign_and_date_request :
      (ssl : OpenSsl) → Option ssl.Key → ℕ → Envelope → SendPolicy → Swarm H → Outcome Envelope
  unfolding set_contact
  sign_and_date_request ssl key now request policy s = do
    signed ← sign ssl key (record request {
      payload = set_contact policy s request.payload;
      sender = s.my_uuid;
      swarm_id = s.swarm_id;
      timestamp = now % 2 ^ 64;
    })
    done signed.0

  -- A call through a null pointer is undefined.
  send_node_request : Bytes → NodeInfo → Envelope → Outcome (List (Effect H))
  send_node_request id info request =
      if info.has_node
      then done (send_message id (w.serialize_envelope request) ∷ [])
      else undefined

  -- `begin()` of an empty map is not an element.
  send_first : NodeMap → Envelope → Outcome (List (Effect H))
  unfolding send_node_request
  send_first [] request = undefined
  send_first ((id, info) ∷ rest) request = send_node_request id info request

  pub send_to : Bytes → NodeMap → Envelope → Outcome (List (Effect H))
  unfolding send_node_request send_first
  send_to id m request = elim (lookup id m) [
    | none ↦ send_first m request
    | some info ↦ send_node_request id info request
  ]

  pub send_all : NodeMap → Envelope → Outcome (List (Effect H))
  unfolding send_node_request
  send_all [] request = done []
  send_all ((id, info) ∷ rest) request = do
    out ← send_node_request id info request
    more ← send_all rest request
    done (out ++ more)

  pub route : SendPolicy → Swarm H → NodeMap → Envelope → Outcome (List (Effect H))
  unfolding send_to send_all
  route normal s m request = send_to s.primary_node m request
  route fastest s m request = send_to s.fastest_node m request
  route broadcast s m request = send_all m request

  unfoldable pub send_request :
      Envelope → SendPolicy → Swarm H → Outcome (Swarm H × List (Effect H))
  unfolding init_nodes route
  send_request request policy s = do
    m ← get_nodes (init_nodes s).0
    out ← route policy (init_nodes s).0 m request
    done ((init_nodes s).0, (init_nodes s).1 ++ out)
