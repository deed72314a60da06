-- ===== src/Examples/Quorums.antt =====
-- A swarm of four nodes, one of which is faulty, and the whole history of a request to it.
use bzapi.Base.{ℕ, ◌≡◌, ◌≢◌, refl, subst, [], ◌∷◌, true, false, none, arith, list_beq}
use bzapi.Base.Text.{Bytes, codes}
use bzapi.Base.Map.{lookup, insert, erase}
use bzapi.Messages.{Payload, DatabaseMsg, Request, normal, fastest}
use bzapi.Dispatch
use bzapi.Dispatch.Handlers
use bzapi.Dispatch.Run
use bzapi.Dispatch.{Dispatch, Effect, init, call, empty_header, empty_envelope}
use bzapi.Dispatch.Run.{Event, send, response}
use bzapi.Dispatch.Run.Honest.{AllCalls, IsTrue, IsHonest}
use bzapi.Dispatch.Run.Trusted.{run-trusted}
use bzapi.Swarm.{
  Swarm, Address, NodeMap, add_node, node_map, init_nodes, honest_majority_size, get_nodes,
}
use bzapi.Swarm.Usable.{initial}
use bzapi.Examples.{toy_wire, toy_swarm, response_from, answer_of}

abbrev somewhere : Address
somewhere = record { host = codes "localhost"; port = 50000 }

abbrev four_infos : NodeMap
four_infos =
    (codes "a", add_node somewhere)
    ∷ (codes "b", add_node somewhere)
    ∷ (codes "c", add_node somewhere)
    ∷ (codes "d", add_node somewhere)
    ∷ []

abbrev four_nodes : Swarm ℕ
four_nodes = record {
  swarm_id = codes "swarm";
  my_uuid = codes "client";
  init_called = false;
  initial_nodes =
      (codes "a", somewhere)
      ∷ (codes "b", somewhere)
      ∷ (codes "c", somewhere)
      ∷ (codes "d", somewhere)
      ∷ [];
  init_handler = none;
  response_handlers = [];
  nodes = none;
  fastest_node = [];
  primary_node = [];
  last_status = none;
}

abbrev read_key : DatabaseMsg
read_key = record { header = empty_header; request = Request.read (codes "key") }

normal≢fastest : normal ≢ fastest
normal≢fastest e = cc

sound-IsHonest :
    (sender : Bytes) → IsHonest toy_wire 1 (codes "c" ∷ []) (answer_of 5) (response_from sender 5)
unfolding Dispatch.responses_are_equal list_beq
sound-IsHonest sender r (same, about) sound =
    let here : answer_of 5 ≡ r = cc in
    subst (λ x. Dispatch.responses_are_equal toy_wire x (answer_of 5) ≡ true) here refl

lying-IsHonest : IsHonest toy_wire 1 (codes "c" ∷ []) (answer_of 5) (response_from (codes "c") 6)
unfolding list_beq
lying-IsHonest r same sound = cc

-- Node "c" lies, and the three others answer alike.
run-trusted_example : AllCalls {H = ℕ} 1 (IsTrue toy_wire (answer_of 5)) (
    Effect.register_swarm_handler (toy_swarm 3)
    ∷ Effect.send_request
        (toy_swarm 3)
        (record empty_envelope { payload = Payload.database_msg (codes "request") })
        normal
    ∷ call 1 7 (answer_of 5)
    ∷ [])
unfolding Run.run Run.step Dispatch.send_message_to_swarm Handlers.handle_swarm_response lookup
    insert erase Dispatch.qualify_response list_beq Dispatch.count_matches
    Dispatch.responses_are_equal init_nodes node_map honest_majority_size get_nodes
run-trusted_example =
    run-trusted toy_wire {H = ℕ} (codes "c" ∷ []) (answer_of 5) four_nodes four_infos (toy_swarm 3)
      init (record { next_nonce = 2; messages = [] }) 10 (codes "db") read_key normal 7
      (response (response_from (codes "a") 5)
        ∷ response (response_from (codes "c") 6)
        ∷ response (response_from (codes "b") 5)
        ∷ response (response_from (codes "d") 5)
        ∷ [])
      _ (initial (omega arith)) refl (omega arith) refl (omega arith) normal≢fastest (omega arith)
      (
        sound-IsHonest (codes "a"),
        (lying-IsHonest, (sound-IsHonest (codes "b"), (sound-IsHonest (codes "d"), tt))),
      )
      refl
