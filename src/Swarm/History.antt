-- ===== src/Swarm/History.antt =====
-- swarm/swarm.cpp: messages from nodes, requests and status requests in any order, and the nodes that
-- they leave.
use bzapi.Base.{
  ℕ, ◌≡◌, refl, sym, ◌∙◌, ap, subst, List, [], ◌∷◌, Bool, true, false, not, ◌&&◌, Option, none,
  some, if◌then◌else◌, list_eq, nat_eq, arith, Option-cases, Bool-cases, inl, inr, eq_refl, ◌==◌,
  if-true, ltb, length,
}
use bzapi.Base.Text.{Bytes, is_empty}
use bzapi.Base.Map.{lookup, insert, lookup-insert}
use bzapi.Base.Outcome.{Outcome, done, threw, ◌>>=◌, >>=-eq-done, done-returns}
use bzapi.Messages.{Envelope, SendPolicy, Wire, payload_case}
use bzapi.Crypto.{OpenSsl}
use bzapi.Swarm.{
  Swarm, Address, Effect, NodeInfo, NodeMap, StatusWire, ResponseHandler, own_status, registered,
  get_nodes, init_nodes, send_request, route,
}
use bzapi.Swarm.Status.{handle_status_response, send_status_request}
use bzapi.Swarm.Incoming.{
  handle_node_message, pass_on, accept, dispatch, respond, is_known, signature_holds, is_busy,
  back_off_all, status_response_of, max_message_size,
}
use bzapi.Swarm.Usable.{
  HasNodes, insert-HasNodes, lookup-HasNodes, get_nodes-some, initial, init_nodes-usable,
  init_nodes-none,
}
use bzapi.Swarm.Refresh.{AllSet, handle_status_response-AllSet, send_status_request-AllSet}

threw-not_done : {A : Type 0} {P : Type 0} {r : A} → ◌≡◌ {A = Outcome A} threw (done r) → P
threw-not_done e = absurd (cc)

-- What a handler leaves is its state, whatever else it returns.
left_state :
    {H : Type 0} {r r' : (Swarm H × List (Effect H)) × Bool}
    → ◌≡◌ {A = Outcome ((Swarm H × List (Effect H)) × Bool)} (done r) (done r')
    → AllSet r.0.0
    → AllSet r'.0.0
left_state e a = done-returns (λ x. AllSet x.0.0) e a

module _ (w : Wire) (sw : StatusWire) (ssl : OpenSsl) (key : Option ssl.Key) {H : Type 0}
    (answers : H → Bytes → Envelope → Outcome Bool) where
  -- Every node is set, and the one with this id is there.
  record Has (uuid : Bytes) (s : Swarm H) : Type 0 where
    members : NodeMap
    info : NodeInfo
    there : s.nodes ≡ some members
    set : HasNodes members
    known : lookup uuid members ≡ some info

  Has-AllSet : (uuid : Bytes) (s : Swarm H) → Has uuid s → AllSet s
  Has-AllSet uuid s h = record { members = h.members; there = h.there; set = h.set }

  respond-AllSet :
      (now date : ℕ) (uuid : Bytes) (env : Envelope) (s : Swarm H)
      {r : (Swarm H × List (Effect H)) × Bool}
      → Has uuid s
      → respond w sw ssl key answers now date uuid env s ≡ done r
      → AllSet r.0.0
  unfolding respond
  respond-AllSet now date uuid env s {r} h =
      by_handler (lookup (payload_case env.payload) s.response_handlers)
    where
      by_handler :
          (o : Option (ResponseHandler H))
          → ◌≡◌ {A = Outcome ((Swarm H × List (Effect H)) × Bool)}
              (elim o [
                | none ↦ done ((s, []), false)
                | some own_status ↦
                    handle_status_response w sw ssl key now date uuid
                      (status_response_of env.payload)
                      s
                | some (registered x) ↦ do res ← answers x uuid env; done ((s, []), res)
              ])
              (done r)
          → AllSet r.0.0
      by_handler none e = left_state e (Has-AllSet uuid s h)
      by_handler (some own_status) e =
          handle_status_response-AllSet w sw ssl key now date uuid (status_response_of env.payload)
            s r.0.0 r.0.1 r.1 h.members h.info h.there h.set h.known e
      by_handler (some (registered x)) e =
          let (res, g, k) = >>=-eq-done (answers x uuid env) _ e in
          left_state k (Has-AllSet uuid s h)

  dispatch-AllSet :
      (now date : ℕ) (uuid : Bytes) (env : Envelope) (m : NodeMap) (s : Swarm H)
      {r : (Swarm H × List (Effect H)) × Bool}
      → Has uuid s
      → dispatch w sw ssl key answers now date uuid env m s ≡ done r
      → AllSet r.0.0
  unfolding dispatch
  dispatch-AllSet now date uuid env m s h e =
      let (slowed, g, k) = >>=-eq-done (back_off_all w (is_busy w env.payload) m) _ e in
      let (r1, g1, k1) = >>=-eq-done (respond w sw ssl key answers now date uuid env s) _ k in
      left_state k1 (respond-AllSet now date uuid env s h g1)

  accept-AllSet :
      (now date : ℕ) (uuid : Bytes) (env : Envelope) (m : NodeMap) (s : Swarm H)
      {r : (Swarm H × List (Effect H)) × Bool}
      → Has uuid s
      → accept w sw ssl key answers now date uuid env m s ≡ done r
      → AllSet r.0.0
  unfolding accept
  accept-AllSet now date uuid env m s {r} h e =
      elim (Bool-cases (not (is_empty env.sender) && not (is_known env.sender m))) [
        | inl unknown ↦ left_state (rw unknown at e) (Has-AllSet uuid s h)
        | inr sender ↦
            let (holds, g, k) = >>=-eq-done (signature_holds ssl env) _ (rw sender at e) in
            verified holds k
      ]
    where
      verified :
          (holds : Bool)
          → ◌≡◌ {A = Outcome ((Swarm H × List (Effect H)) × Bool)}
              (if holds
                then dispatch w sw ssl key answers now date uuid env m s
                else done ((s, []), true))
              (done r)
          → AllSet r.0.0
      verified true e = dispatch-AllSet now date uuid env m s h e
      verified false e = left_state e (Has-AllSet uuid s h)

  handle_node_message-AllSet :
      (now date : ℕ) (uuid bytes : Bytes) (s : Swarm H) {r : (Swarm H × List (Effect H)) × Bool}
      → AllSet s
      → handle_node_message w sw ssl key answers now date uuid bytes s ≡ done r
      → AllSet r.0.0
  unfolding handle_node_message pass_on
  handle_node_message-AllSet now date uuid bytes s {r} a e =
      let m = a.members in
      let e' : pass_on w sw ssl key answers now date uuid bytes s m ≡ done r =
        ap (λ o. o >>= pass_on w sw ssl key answers now date uuid bytes s)
          (sym (get_nodes-some s m a.there))
        ∙ e in
      elim (Option-cases (lookup uuid m)) [
        | inl gone ↦ left_state (rw (gone, pass_on) at e') a
        | inr (info, found) ↦
            let info' = record info { last_message_received = date } in
            let touched : NodeMap = insert uuid info' m in
            let s' : Swarm H = record s { nodes = some touched } in
            let h : Has uuid s' = record {
              members = touched;
              info = info';
              there = refl;
              set = insert-HasNodes uuid info' m (lookup-HasNodes uuid m info a.set found) a.set;
              known = lookup-insert uuid uuid info' m ∙ if-true _ _ (uuid == uuid) (eq_refl uuid);
            } in
            let e2 = rw (found, pass_on) at e' in
            elim (Option-cases (w.parse_envelope bytes)) [
              | inl unread ↦
                  let e3 = rw unread at e2 in
                  elim (Bool-cases (ltb (length bytes) max_message_size)) [
                    | inl short ↦ threw-not_done (rw short at e3)
                    | inr long ↦ left_state (rw long at e3) (Has-AllSet uuid s' h)
                  ]
              | inr (env, read) ↦ accept-AllSet now date uuid env touched s' h (rw read at e2)
            ]
      ]

  init_nodes-AllSet : (s : Swarm H) → AllSet s → AllSet (init_nodes s).0
  init_nodes-AllSet s a = by_list s.initial_nodes refl
    where
      by_list : (l : List (Bytes × Address)) → s.initial_nodes ≡ l → AllSet (init_nodes s).0
      by_list [] e =
          subst (λ (r : Swarm H × List (Effect H)). AllSet r.0) (sym (init_nodes-none s e)) a
      by_list (x ∷ l) e =
          let (m, n, pos, set) = init_nodes-usable s (initial (ground arith)) in
          record { members = m; there = n; set = set }

  send_request-AllSet :
      (env : Envelope) (policy : SendPolicy) (s : Swarm H) {r : Swarm H × List (Effect H)}
      → AllSet s
      → send_request w env policy s ≡ done r
      → AllSet r.0
  unfolding send_request
  send_request-AllSet env policy s {r} a e =
      let (m, g, k) = >>=-eq-done (get_nodes (init_nodes s).0) _ e in
      let (out, g1, k1) = >>=-eq-done (route w policy (init_nodes s).0 m env) _ k in
      done-returns (λ (x : Swarm H × List (Effect H)). AllSet x.0) k1 (init_nodes-AllSet s a)

-- What the swarm does next: a node passes on a message, the dispatcher sends a request, or a status
-- timer ends. `now` and `date` are the two clocks.
pub data Event : Type 0 where
  message : ℕ → ℕ → Bytes → Bytes → Event
  request : Envelope → SendPolicy → Event
  status_timer : ℕ → ℕ → Bytes → Event

module _ (w : Wire) (sw : StatusWire) (ssl : OpenSsl) (key : Option ssl.Key) {H : Type 0}
    (answers : H → Bytes → Envelope → Outcome Bool) where
  unfoldable pub step : Event → Swarm H → Outcome (Swarm H)
  step (message now date uuid bytes) s = do
    r ← handle_node_message w sw ssl key answers now date uuid bytes s
    done r.0.0
  step (request env policy) s = do r ← send_request w env policy s; done r.0
  step (status_timer now date id) s = do
    r ← send_status_request w sw ssl key now date id s
    done r.0

  unfoldable pub run : List Event → Swarm H → Outcome (Swarm H)
  unfolding step
  run [] s = done s
  run (e ∷ es) s = do s1 ← step e s; run es s1

  step-AllSet : (e : Event) (s s1 : Swarm H) → AllSet s → step e s ≡ done s1 → AllSet s1
  unfolding step
  step-AllSet (message now date uuid bytes) s s1 a e =
      let (r, g, k) =
        >>=-eq-done (handle_node_message w sw ssl key answers now date uuid bytes s) _ e in
      done-returns AllSet k
        (handle_node_message-AllSet w sw ssl key answers now date uuid bytes s a g)
  step-AllSet (request env policy) s s1 a e =
      let (r, g, k) = >>=-eq-done (send_request w env policy s) _ e in
      done-returns AllSet k (send_request-AllSet w sw ssl key answers env policy s a g)
  step-AllSet (status_timer now date id) s s1 a e =
      let (r, g, k) = >>=-eq-done (send_status_request w sw ssl key now date id s) _ e in
      done-returns AllSet k (send_status_request-AllSet w sw ssl key now date id s r.0 r.1 a g)

  -- Once every node of a swarm is set, every node is set after any history of messages from nodes,
  -- whatever they hold, of requests and of status requests, in any order, in which no call throws and
  -- no null pointer is followed.
  pub run-AllSet : (es : List Event) (s s' : Swarm H) → AllSet s → run es s ≡ done s' → AllSet s'
  unfolding run
  run-AllSet [] s s' a e = done-returns AllSet e a
  run-AllSet (ev ∷ es) s s' a e =
      let (s1, g, k) = >>=-eq-done (step ev s) _ e in
      run-AllSet es s1 s' (step-AllSet ev s s1 a g) k
