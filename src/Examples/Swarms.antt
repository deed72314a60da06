-- ===== src/Examples/Swarms.antt =====
-- A swarm of three nodes, first not initialized and then with its nodes.
use bzapi.Base.{
  ℕ, ◌≡◌, ◌≢◌, ◌≤◌, ◌<◌, ◌*◌, ◌+◌, refl, List, [], ◌∷◌, ◌++◌, Bool, true, false, none, some, arith,
  ◌⊎◌, map, list_eq, list_beq,
}
use bzapi.Base.Text.{Bytes, codes}
use bzapi.Base.Map.{lookup, insert}
use bzapi.Base.Outcome.{Outcome, done, threw}
use bzapi.Messages.{Payload, Envelope, normal, broadcast}
use bzapi.Crypto.{extract_payload}
use bzapi.Dispatch.{empty_envelope}
use bzapi.Swarm.{
  Swarm, Address, NodeInfo, NodeMap, StatusWire, send_message, add_node, node_map, init_nodes,
  send_request, honest_majority_size, point_of_contact,
}
use bzapi.Swarm.Incoming.{handle_node_message}
use bzapi.Swarm.Usable.{IsUsable, ready, initial}
use bzapi.Swarm.Majority.{honest_majority_size-bounds}
use bzapi.Swarm.Routing.{send_request-one, send_request-broadcast}
use bzapi.Swarm.Refused.{
  touched, unknown_sender, handle_node_message-refused, handle_node_message-throws,
}
use bzapi.Node.{Node, connected}
use bzapi.Swarm.Unread.{read_message, read_message-unparsed}
use bzapi.Swarm.{get_nodes}
use bzapi.Swarm.Refresh.{AllSet}
use bzapi.Swarm.History.{message, request, run, step, run-AllSet}
use bzapi.Swarm.Incoming.{pass_on, accept}
use bzapi.Examples.{toy_wire}
use bzapi.Examples.Signatures.{echo_ssl}

abbrev somewhere : Address
somewhere = record { host = codes "localhost"; port = 50000 }

abbrev three_nodes : List (Bytes × Address)
three_nodes = (codes "a", somewhere) ∷ (codes "b", somewhere) ∷ (codes "c", somewhere) ∷ []

abbrev three_infos : NodeMap
three_infos =
    (codes "a", add_node somewhere)
    ∷ (codes "b", add_node somewhere)
    ∷ (codes "c", add_node somewhere)
    ∷ []

abbrev new_swarm : Swarm ℕ
new_swarm = record {
  swarm_id = codes "swarm";
  my_uuid = codes "client";
  init_called = false;
  initial_nodes = three_nodes;
  init_handler = none;
  response_handlers = [];
  nodes = none;
  fastest_node = [];
  primary_node = [];
  last_status = none;
}

-- The primary is "b"; the fastest node has left the swarm.
abbrev known_swarm : Swarm ℕ
known_swarm = record new_swarm {
  initial_nodes = [];
  nodes = some three_infos;
  fastest_node = codes "d";
  primary_node = codes "b";
}

known_swarm-IsUsable : IsUsable known_swarm
known_swarm-IsUsable = ready three_infos refl refl (omega arith) (refl, (refl, (refl, tt)))

normal≢broadcast : normal ≢ broadcast
normal≢broadcast e = cc

abbrev greeting : Envelope
greeting = record empty_envelope { sender = codes "hello" }

send_request-one_example :
    (m : NodeMap) × (j : Bytes) × (info : NodeInfo) × ((init_nodes known_swarm).0.nodes ≡ some m)
    × (send_request toy_wire greeting normal known_swarm
        ≡ done (
          (init_nodes known_swarm).0,
          (init_nodes known_swarm).1 ++ (send_message j (codes "hello") ∷ []),
        ))
    × (lookup j m ≡ some info)
    × ((j ≡ point_of_contact normal (init_nodes known_swarm).0)
        ⊎ (lookup (point_of_contact normal (init_nodes known_swarm).0) m ≡ none))
send_request-one_example =
    send_request-one toy_wire known_swarm greeting normal known_swarm-IsUsable normal≢broadcast

send_request-broadcast_example :
    (m : NodeMap) × ((init_nodes new_swarm).0.nodes ≡ some m)
    × (send_request toy_wire greeting broadcast new_swarm
        ≡ done (
          (init_nodes new_swarm).0,
          (init_nodes new_swarm).1 ++ map (λ e. send_message e.0 (codes "hello")) m,
        ))
send_request-broadcast_example =
    send_request-broadcast toy_wire new_swarm greeting (initial (omega arith))

honest_majority_size-bounds_example :
    (q : ℕ) × (f : ℕ) × (honest_majority_size new_swarm ≡ done ((init_nodes new_swarm).0, q))
    × (3 * f + 1 ≤ 3)
    × (3 ≤ 3 * f + 3)
    × (f < q)
    × (q + f ≤ 3)
unfolding init_nodes insert node_map list_beq
honest_majority_size-bounds_example =
    honest_majority_size-bounds new_swarm three_infos (initial (omega arith)) refl (omega arith)

-- No status is ever read here.
abbrev no_status : StatusWire
no_status = record { status_request = []; parse_status = λ b. none; module_status = λ b. threw }

abbrev no_answer : ℕ → Bytes → Envelope → Outcome Bool
no_answer h uuid env = done false

-- Node "a" passes on a message from "x", which is no node.
handle_node_message-refused_example :
    handle_node_message toy_wire no_status echo_ssl none no_answer 100 200
      (codes "a")
      (codes "x")
      known_swarm
    ≡ done (
      (
        record known_swarm {
          nodes = some (touched 200 (codes "a") (add_node somewhere) three_infos);
        },
        [],
      ),
      false,
    )
unfolding lookup list_beq insert
handle_node_message-refused_example =
    handle_node_message-refused toy_wire no_status echo_ssl none no_answer 100 200 (codes "a")
      (codes "x") known_swarm three_infos (add_node somewhere) false refl refl
      (unknown_sender (record empty_envelope { sender = codes "x" }) refl refl refl)

abbrev a_node : Node ℕ
a_node = record {
  state = connected;
  websocket = some 0;
  next_websocket = 1;
  secure = false;
  backoff_time = 0;
  send_queue = [];
}

-- Node "a" passes on an empty message, which does not parse.
read_message-unparsed_example :
    read_message toy_wire no_status echo_ssl none no_answer 100 200
      (codes "a")
      []
      known_swarm
      true
      a_node
    ≡ done (a_node, [])
unfolding lookup list_beq insert
read_message-unparsed_example =
    read_message-unparsed toy_wire no_status echo_ssl none no_answer 100 200 (codes "a") []
      known_swarm three_infos (add_node somewhere) true a_node refl refl refl

-- Node "a" passes on a swarm error that node "b" signed.
handle_node_message-throws_example :
    handle_node_message toy_wire no_status echo_ssl none no_answer 100 200
      (codes "a")
      (codes "b!")
      known_swarm
    ≡ threw
unfolding lookup list_beq insert extract_payload
handle_node_message-throws_example =
    handle_node_message-throws toy_wire no_status echo_ssl none no_answer 100 200 (codes "a")
      (codes "b!") known_swarm three_infos (add_node somewhere)
      (record empty_envelope {
        sender = codes "b";
        signature = codes "s";
        payload = Payload.swarm_error (codes "!");
      })
      refl refl refl refl (omega arith) refl

-- Node "a" passes on a message from "x", which is refused, and then a request is sent.
run-AllSet_example :
    AllSet (record known_swarm {
      nodes = some (touched 200 (codes "a") (add_node somewhere) three_infos);
    })
unfolding lookup list_beq insert run step handle_node_message pass_on accept get_nodes send_request
    init_nodes
run-AllSet_example =
    run-AllSet toy_wire no_status echo_ssl none no_answer
      (message 100 200 (codes "a") (codes "x") ∷ request greeting normal ∷ []) known_swarm _
      (record { members = three_infos; there = refl; set = (refl, (refl, (refl, tt))) }) refl
