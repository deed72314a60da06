-- ===== src/Swarm/Refresh.antt =====
-- swarm/swarm.cpp: status responses and status requests keep every node of the swarm set.
use bzapi.Base.{
  ℕ, ◌≡◌, refl, sym, subst, List, [], ◌∷◌, Bool, true, false, Option, some, if◌then◌else◌, list_eq,
  map, arith, Option-cases, inl, inr, ◌-◌,
}
use bzapi.Base.Text.{Bytes}
use bzapi.Base.Map.{lookup, insert}
use bzapi.Base.Outcome.{Outcome, done, threw, undefined, ◌>>=◌, >>=-eq-done}
use bzapi.Messages.{Envelope, Wire}
use bzapi.Crypto.{OpenSsl}
use bzapi.Swarm.{
  Swarm, Effect, NodeInfo, NodeMap, StatusWire, StatusResponse, ModuleStatus, get_nodes,
}
use bzapi.Swarm.Status.{
  entry, Scan, scan_peers, send_status_request, send_status_requests, take_status, init_ended,
  handle_status_response,
}
use bzapi.Swarm.Usable.{HasNodes, insert-HasNodes, lookup-HasNodes, get_nodes-some}
use bzapi.Swarm.Fastest.{scan_peers-ScanOk}

-- The nodes are there, and each of them is set.
pub record AllSet {H : Type 0} (s : Swarm H) : Type 0 where
  pub members : NodeMap
  pub there : s.nodes ≡ some members
  pub set : HasNodes members

get_nodes-AllSet :
    {H : Type 0} (s : Swarm H) (m : NodeMap) → AllSet s → get_nodes s ≡ done m → HasNodes m
unfolding get_nodes
get_nodes-AllSet s m a e =
    let same_map : a.members ≡ m = let g = get_nodes-some s a.members a.there in ground arith in
    subst HasNodes same_map a.set

pub done_state :
    {H : Type 0} {s s' : Swarm H} {out out' : List (Effect H)}
    → ◌≡◌ {A = Outcome (Swarm H × List (Effect H))} (done (s, out)) (done (s', out'))
    → s ≡ s'
done_state e = ground arith

-- A node that is set was sent to.
sent_state :
    {H : Type 0} (o : Outcome Envelope) (b : Bool) (next s' : Swarm H)
    (f : Envelope → List (Effect H)) (out : List (Effect H))
    → ◌>>=◌ {B = Swarm H × List (Effect H)} o (λ env. (if b then done (next, f env) else undefined))
      ≡ done (s', out)
    → next ≡ s'
sent_state (done env) true next s' f out e = done_state e
sent_state (done env) false next s' f out e = cc
sent_state threw b next s' f out e = cc
sent_state undefined b next s' f out e = cc

init_ended-AllSet :
    {H : Type 0} (s s' : Swarm H) (out out' : List (Effect H))
    → AllSet s
    → init_ended (s, out) ≡ (s', out')
    → AllSet s'
unfolding init_ended
init_ended-AllSet s s' out out' a e = elim (Option-cases s.init_handler) [
  | inl ended ↦ record { members = a.members; there = ground (arith, a.there); set = a.set }
  | inr (h, waits) ↦ record { members = a.members; there = ground (arith, a.there); set = a.set }
]

entry-HasNodes :
    (uuid : Bytes) (m : NodeMap) (info : NodeInfo)
    → HasNodes m
    → lookup uuid m ≡ some info
    → (entry uuid m).has_node ≡ true
entry-HasNodes uuid m info h e = rw (e, entry) (lookup-HasNodes uuid m info h e)

done_result :
    {H : Type 0} {r r' : Swarm H × List (Effect H)} {b b' : Bool}
    → ◌≡◌ {A = Outcome ((Swarm H × List (Effect H)) × Bool)} (done (r, b)) (done (r', b'))
    → r ≡ r'
done_result e = ground arith

module _ (w : Wire) (sw : StatusWire) (ssl : OpenSsl) (key : Option ssl.Key) {H : Type 0} where
  pub send_status_request-AllSet :
      (now date : ℕ) (id : Bytes) (s s' : Swarm H) (out : List (Effect H))
      → AllSet s
      → send_status_request w sw ssl key now date id s ≡ done (s', out)
      → AllSet s'
  unfolding send_status_request
  send_status_request-AllSet now date id s s' out a e =
      let (m, g, k) = >>=-eq-done (get_nodes s) _ e in
      let h = get_nodes-AllSet s m a g in
      elim (Option-cases (lookup id m)) [
        | inl gone ↦ subst AllSet (done_state (rw gone at k)) a
        | inr (info, found) ↦
            let asked = record info { last_status_request_sent = now; last_message_sent = date } in
            let next = record s { nodes = some (insert id asked m) } in
            let k' = rw found at k in
            let same_state : next ≡ s' = sent_state _ info.has_node next s' _ out k' in
            subst AllSet same_state (record {
              members = insert id asked m;
              there = refl;
              set = insert-HasNodes id asked m (lookup-HasNodes id m info h found) h;
            })
      ]

  send_status_requests-AllSet :
      (now date : ℕ) (ids : List Bytes) (s s' : Swarm H) (out : List (Effect H))
      → AllSet s
      → send_status_requests w sw ssl key now date ids s ≡ done (s', out)
      → AllSet s'
  unfolding send_status_requests
  send_status_requests-AllSet now date [] s s' out a e = subst AllSet (done_state e) a
  send_status_requests-AllSet now date (id ∷ ids) s s' out a e =
      let ((s1, out1), g, k) = >>=-eq-done (send_status_request w sw ssl key now date id s) _ e in
      let ((s2, out2), g2, k2) =
        >>=-eq-done (send_status_requests w sw ssl key now date ids s1) _ k in
      subst AllSet (done_state k2) (
        send_status_requests-AllSet now date ids s1 s2 out2
          (send_status_request-AllSet now date id s s1 out1 a g) g2)

  take_status-AllSet :
      (now date : ℕ) (uuid : Bytes) (m : NodeMap) (status : StatusResponse) (ms : ModuleStatus)
      (s s' : Swarm H) (out : List (Effect H))
      → take_status w sw ssl key now date uuid m status ms s ≡ done (s', out)
      → AllSet s'
  unfolding take_status
  take_status-AllSet now date uuid m status ms s s' out e =
      let duration = now - (entry uuid m).last_status_request_sent in
      let start : Scan = record {
        new_nodes = [];
        fastest_time = duration;
        fastest_node_so_far = uuid;
        new_peers = [];
      } in
      let r = scan_peers m uuid duration ms.peer_index start in
      let ok = scan_peers-ScanOk m uuid duration ms.peer_index start (tt, tt) in
      let next : Swarm H = record s {
        nodes = some r.new_nodes;
        primary_node = ms.primary;
        fastest_node = r.fastest_node_so_far;
        last_status = some status;
      } in
      let ids = map (λ p. p.uuid) r.new_peers in
      let ((s1, out1), g, k) =
        >>=-eq-done (send_status_requests w sw ssl key now date ids next) _ e in
      subst AllSet (done_state k) (
        send_status_requests-AllSet now date ids next s1 out1
          (record { members = r.new_nodes; there = refl; set = ok.0 }) g)

  -- If every node of the swarm is set and the response is from one of them, then after a status
  -- response that is handled (read or not) every node of the swarm is set.
  pub handle_status_response-AllSet :
      (now date : ℕ) (uuid response : Bytes) (s s' : Swarm H) (out : List (Effect H)) (close : Bool)
      (m : NodeMap) (info : NodeInfo)
      → s.nodes ≡ some m
      → HasNodes m
      → lookup uuid m ≡ some info
      → handle_status_response w sw ssl key now date uuid response s ≡ done ((s', out), close)
      → AllSet s'
  unfolding handle_status_response
  handle_status_response-AllSet now date uuid response s s' out close m info n h known e =
      let (m1, g, k) = >>=-eq-done (get_nodes s) _ e in
      let same_map : m1 ≡ m = let g' = get_nodes-some s m n in ground arith in
      let known1 : lookup uuid m1 ≡ some info =
        subst (λ x. lookup uuid x ≡ some info) (sym same_map) known in
      let h1 : HasNodes m1 = subst HasNodes (sym same_map) h in
      elim (Option-cases (sw.parse_status response)) [
        | inl unread ↦
            let k' = rw unread at k in
            let kept = insert uuid (entry uuid m1) m1 in
            init_ended-AllSet (record s { nodes = some kept }) s' [] out
              (record {
                members = kept;
                there = refl;
                set =
                    insert-HasNodes uuid (entry uuid m1) m1 (entry-HasNodes uuid m1 info h1 known1)
                      h1;
              })
              (done_result k')
        | inr (status, read) ↦
            let k' = rw read at k in
            let (ms, _, k2) = >>=-eq-done (sw.module_status status.module_status_json) _ k' in
            let ((s1, out1), g3, k3) =
              >>=-eq-done (take_status w sw ssl key now date uuid m1 status ms s) _ k2 in
            init_ended-AllSet s1 s' out1 out
              (take_status-AllSet now date uuid m1 status ms s s1 out1 g3) (done_result k3)
      ]
