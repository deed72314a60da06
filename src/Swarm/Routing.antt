-- ===== src/Swarm/Routing.antt =====
-- swarm/swarm.cpp: where requests go.
use bzapi.Base.{
  ◌≤◌, ◌≡◌, ◌≢◌, refl, [], ◌∷◌, ◌++◌, true, none, some, length, list_eq, map, inl, inr, ◌⊎◌,
  Option-cases,
}
use bzapi.Base.Text.{Bytes}
use bzapi.Base.Map.{lookup}
use bzapi.Base.Outcome.{done}
use bzapi.Messages.{Envelope, SendPolicy, normal, fastest, broadcast, Wire}
use bzapi.Swarm.{
  NodeInfo, NodeMap, Swarm, send_message, init_nodes, send_node_request, send_first, send_to,
  send_all, route, send_request, point_of_contact,
}
use bzapi.Swarm.Usable.{
  HasNodes, IsUsable, init_nodes-usable, get_nodes-some, lookup-HasNodes, lookup-first,
}

module _ (w : Wire) {H : Type 0} where
  send_node_request-done :
      (id : Bytes) (info : NodeInfo) (request : Envelope)
      → info.has_node ≡ true
      → send_node_request w {H = H} id info request
        ≡ done (send_message id (w.serialize_envelope request) ∷ [])
  unfolding send_node_request
  send_node_request-done id info request h = rw h refl

  send_to-found :
      (id : Bytes) (m : NodeMap) (request : Envelope) (info : NodeInfo)
      → HasNodes m
      → lookup id m ≡ some info
      → send_to w {H = H} id m request ≡ done (send_message id (w.serialize_envelope request) ∷ [])
  unfolding send_to
  send_to-found id m request info h e =
      rw (e, send_to) (send_node_request-done id info request (lookup-HasNodes id m info h e))

  send_to-missing :
      (id : Bytes) (m : NodeMap) (request : Envelope)
      → HasNodes m
      → 1 ≤ length m
      → lookup id m ≡ none
      → (j : Bytes) × (info : NodeInfo) × (send_to w {H = H} id m request
          ≡ done (send_message j (w.serialize_envelope request) ∷ []))
        × (lookup j m ≡ some info)
  unfolding send_to send_first
  send_to-missing id [] request h pos e = elim pos [ ]
  send_to-missing id ((j, info) ∷ rest) request h pos e = (
    j,
    info,
    rw (e, send_to) (send_node_request-done j info request h.0),
    lookup-first j info rest,
  )

  -- The node that is asked for, or another.
  send_to-one :
      (id : Bytes) (m : NodeMap) (request : Envelope)
      → HasNodes m
      → 1 ≤ length m
      → (j : Bytes) × (info : NodeInfo) × (send_to w {H = H} id m request
          ≡ done (send_message j (w.serialize_envelope request) ∷ []))
        × (lookup j m ≡ some info)
        × ((j ≡ id) ⊎ (lookup id m ≡ none))
  send_to-one id m request h pos = elim (Option-cases (lookup id m)) [
    | inl e ↦
        let (j, info, sent, found) = send_to-missing id m request h pos e in
        (j, info, sent, found, inr e)
    | inr (info, e) ↦ (id, info, send_to-found id m request info h e, e, inl refl)
  ]

  send_all-map :
      (m : NodeMap) (request : Envelope)
      → HasNodes m
      → send_all w {H = H} m request
        ≡ done (map (λ e. send_message e.0 (w.serialize_envelope request)) m)
  unfolding send_all
  send_all-map [] request h = refl
  send_all-map ((id, info) ∷ m) request h =
      rw (send_node_request-done id info request h.0, send_all-map m request h.1) refl

module _ (w : Wire) {H : Type 0} where
  -- In a usable swarm a request of policy normal or fastest is sent exactly once, to a node of
  -- the swarm: the point of contact, if it is one. `init_nodes` may make nodes before.
  pub send_request-one :
      (s : Swarm H) (request : Envelope) (policy : SendPolicy)
      → IsUsable s
      → policy ≢ broadcast
      → (m : NodeMap) × (j : Bytes) × (info : NodeInfo) × ((init_nodes s).0.nodes ≡ some m)
        × (send_request w request policy s
            ≡ done (
              (init_nodes s).0,
              (init_nodes s).1 ++ (send_message j (w.serialize_envelope request) ∷ []),
            ))
        × (lookup j m ≡ some info)
        × ((j ≡ point_of_contact policy (init_nodes s).0)
            ⊎ (lookup (point_of_contact policy (init_nodes s).0) m ≡ none))
  unfolding send_request route
  send_request-one s request normal usable other =
      let (m, n, pos, h) = init_nodes-usable s usable in
      let (j, info, sent, found, there) =
        send_to-one w {H = H} (init_nodes s).0.primary_node m request h pos in
      (m, j, info, n, rw (get_nodes-some (init_nodes s).0 m n, sent) refl, found, there)
  send_request-one s request fastest usable other =
      let (m, n, pos, h) = init_nodes-usable s usable in
      let (j, info, sent, found, there) =
        send_to-one w {H = H} (init_nodes s).0.fastest_node m request h pos in
      (m, j, info, n, rw (get_nodes-some (init_nodes s).0 m n, sent) refl, found, there)
  send_request-one s request broadcast usable other = elim (other refl) [ ]

  -- In a usable swarm a broadcast is sent once to each entry of the node map, in its order.
  pub send_request-broadcast :
      (s : Swarm H) (request : Envelope)
      → IsUsable s
      → (m : NodeMap) × ((init_nodes s).0.nodes ≡ some m)
        × (send_request w request broadcast s
            ≡ done (
              (init_nodes s).0,
              (init_nodes s).1 ++ map (λ e. send_message e.0 (w.serialize_envelope request)) m,
            ))
  unfolding send_request route
  send_request-broadcast s request usable =
      let (m, n, pos, h) = init_nodes-usable s usable in
      (m, n, rw (get_nodes-some (init_nodes s).0 m n, send_all-map w {H = H} m request h) refl)
