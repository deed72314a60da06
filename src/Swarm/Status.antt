-- ===== src/Swarm/Status.antt =====
-- swarm/swarm.cpp: `initialize`, status requests and status responses.
use bzapi.Base.{
  ℕ, ◌-◌, ◌%◌, ◌^◌, List, [], ◌∷◌, ◌++◌, Bool, true, false, ◌&&◌, Option, none, some, if◌then◌else◌,
  ltb, ◌==◌, list_eq, nat_eq, map,
}
use bzapi.Base.Text.{Bytes}
use bzapi.Base.Map.{lookup, insert}
use bzapi.Base.Outcome.{Outcome, done, threw, undefined, ◌>>=◌}
use bzapi.Messages.{Payload, normal, Wire}
use bzapi.Crypto.{OpenSsl}
use bzapi.Dispatch.{empty_envelope}
use bzapi.Swarm.{
  NodeInfo, NodeMap, Peer, ModuleStatus, StatusResponse, StatusWire, own_status, Swarm, Effect,
  create_node, send_status, start_status_timer, in_progress, init_done, add_node, default_info,
  init_nodes, get_nodes, register_response_handler, sign_and_date_request,
}

-- A map never loses an entry, so that a reference to it is to one that is there.
at_entry : Option NodeInfo → Outcome NodeInfo
at_entry none = undefined
at_entry (some info) = done info

-- `operator[]`: the entry, which is made if there is none.
abbrev pub entry : Bytes → NodeMap → NodeInfo
entry id m = elim (lookup id m) [ none ↦ default_info | some info ↦ info ]

-- What the loop over the peers carries along: the new map, the fastest time and node so far, and
-- the nodes that were added.
pub record Scan : Type 0 where
  pub new_nodes : NodeMap
  pub fastest_time : ℕ
  pub fastest_node_so_far : Bytes
  pub new_peers : List Peer

-- The node's entry before its duration is set. The port is a `uint16_t`.
unfoldable pub peer_info : NodeMap → Peer → NodeInfo
peer_info m peer =
    let info = entry peer.uuid m in
    if info.has_node
    then info
    else add_node (record { host = peer.host; port = peer.port % 2 ^ 16 })

abbrev pub added_peer : NodeMap → Peer → List Peer
added_peer m peer = if (entry peer.uuid m).has_node then [] else peer ∷ []

-- The response time of the node that the response is from.
unfoldable pub timed : Bytes → ℕ → Bytes → NodeInfo → NodeInfo
timed uuid duration id info =
    if id == uuid then record info { last_status_duration = duration } else info

-- The rest of the turn: the entry is compared with the fastest and stored.
unfoldable pub scan_info : Bytes → NodeInfo → List Peer → Scan → Scan
scan_info id info added r =
    if ltb 0 info.last_status_duration && ltb info.last_status_duration r.fastest_time
    then record {
      new_nodes = insert id info r.new_nodes;
      fastest_time = info.last_status_duration;
      fastest_node_so_far = id;
      new_peers = r.new_peers ++ added;
    }
    else record r { new_nodes = insert id info r.new_nodes; new_peers = r.new_peers ++ added }

-- One turn of the loop over the peers, for a response from `uuid` that took `duration`.
unfoldable pub scan_peer : NodeMap → Bytes → ℕ → Peer → Scan → Scan
unfolding peer_info timed scan_info
scan_peer m uuid duration peer r =
    scan_info peer.uuid (timed uuid duration peer.uuid (peer_info m peer)) (added_peer m peer) r

unfoldable pub scan_peers : NodeMap → Bytes → ℕ → List Peer → Scan → Scan
unfolding scan_peer
scan_peers m uuid duration [] r = r
scan_peers m uuid duration (p ∷ ps) r =
    scan_peers m uuid duration ps (scan_peer m uuid duration p r)

-- The calls of the loop: new nodes are made, and the sender's status timer is started.
abbrev pub peer_effects : {H : Type 0} → NodeMap → Bytes → List Peer → List (Effect H)
peer_effects m uuid [] = []
peer_effects m uuid (p ∷ ps) =
    let rest = peer_effects m uuid ps in
    let timer = if p.uuid == uuid then start_status_timer p.uuid ∷ [] else [] in
    (if (entry p.uuid m).has_node
      then timer
      else create_node p.uuid p.host (p.port % 2 ^ 16) ∷ timer)
    ++ rest

-- The first status response ends the initialization.
unfoldable pub init_ended : {H : Type 0} → Swarm H × List (Effect H) → Swarm H × List (Effect H)
init_ended (s, out) = elim s.init_handler [
  | none ↦ (s, out)
  | some h ↦ (record s { init_handler = none }, out ++ (init_done h ∷ []))
]

module _ (w : Wire) (sw : StatusWire) (ssl : OpenSsl) (key : Option ssl.Key) {H : Type 0} where
  -- `now` is the steady clock in microseconds, `date` the system clock in milliseconds.
  unfoldable pub send_status_request : ℕ → ℕ → Bytes → Swarm H → Outcome (Swarm H × List (Effect H))
  unfolding sign_and_date_request
  send_status_request now date id s = do
    m ← get_nodes s
    elim (lookup id m) [
      | none ↦ done (s, [])
      | some info ↦
          sign_and_date_request w ssl key date
            (record empty_envelope { payload = Payload.status_request sw.status_request }) normal s
          >>= λ env.
              if info.has_node
              then done (
                record s {
                  nodes = some (
                      insert id
                        (record info { last_status_request_sent = now; last_message_sent = date })
                        m);
                },
                send_status id (w.serialize_envelope env) ∷ [],
              )
              else undefined
    ]

  -- A status request to each of these nodes.
  unfoldable pub send_status_requests :
      ℕ → ℕ → List Bytes → Swarm H → Outcome (Swarm H × List (Effect H))
  unfolding send_status_request
  send_status_requests now date [] s = done (s, [])
  send_status_requests now date (id ∷ ids) s = do
    r ← send_status_request now date id s
    rest ← send_status_requests now date ids r.0
    done (rest.0, r.1 ++ rest.1)

  -- The write of a status request has failed: the node will not be the fastest. The handler writes
  -- through a reference to the entry, in the map that was the swarm's when the request was sent;
  -- where a status response has replaced that map since (`replaced`), the entry may be freed.
  unfoldable status_request_failed : Bool → Bytes → Swarm H → Outcome (Swarm H × List (Effect H))
  unfolding at_entry
  status_request_failed replaced id s = if replaced then undefined else do
    m ← get_nodes s
    info ← at_entry (lookup id m)
    done (
      record s { nodes = some (insert id (record info { last_status_duration = 0 }) m) },
      start_status_timer id ∷ [],
    )

  -- The end of `initialize`, with the nodes that there are.
  start : ℕ → ℕ → H → Swarm H → NodeMap → Outcome (Swarm H × List (Effect H))
  unfolding send_status_requests register_response_handler
  start now date handler s [] = threw
  start now date handler s (e ∷ m) =
      let started = record s { init_called = true; init_handler = some handler } in
      send_status_requests now date (map (λ e. e.0) (e ∷ m))
        (register_response_handler 18 own_status started).0

  unfoldable pub initialize : ℕ → ℕ → H → Swarm H → Outcome (Swarm H × List (Effect H))
  unfolding init_nodes start
  initialize now date handler s =
      let (s', out) = init_nodes s in
      if s'.init_called
      then done (s', out ++ (in_progress handler ∷ []))
      else do m ← get_nodes s'; r ← start now date handler s' m; done (r.0, out ++ r.1)

  -- The new nodes, the primary and the fastest, once the status is read.
  unfoldable pub take_status :
      ℕ
      → ℕ
      → Bytes
      → NodeMap
      → StatusResponse
      → ModuleStatus
      → Swarm H
      → Outcome (Swarm H × List (Effect H))
  unfolding scan_peers send_status_requests
  take_status now date uuid m status module_status s =
      let duration = now - (entry uuid m).last_status_request_sent in
      let r = scan_peers m uuid duration module_status.peer_index (record {
        new_nodes = [];
        fastest_time = duration;
        fastest_node_so_far = uuid;
        new_peers = [];
      }) in
      do
        sent ← send_status_requests now date (map (λ p. p.uuid) r.new_peers) (record s {
          nodes = some r.new_nodes;
          primary_node = module_status.primary;
          fastest_node = r.fastest_node_so_far;
          last_status = some status;
        })
        done (sent.0, peer_effects m uuid module_status.peer_index ++ sent.1)

  -- The result says whether the connection is to be closed.
  unfoldable pub handle_status_response :
      ℕ → ℕ → Bytes → Bytes → Swarm H → Outcome ((Swarm H × List (Effect H)) × Bool)
  unfolding take_status init_ended
  handle_status_response now date uuid response s = do
    m ← get_nodes s
    elim (sw.parse_status response) [
      | none ↦
          done (init_ended (record s { nodes = some (insert uuid (entry uuid m) m) }, []), true)
      | some status ↦ do
        module_status ← sw.module_status status.module_status_json
        r ← take_status now date uuid m status module_status s
        done (init_ended r, false)
    ]
