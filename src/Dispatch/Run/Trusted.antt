-- ===== src/Dispatch/Run/Trusted.antt =====
-- A request and its whole history: the answer that the caller gets, however the events come. Senders
-- are the names that responses bear.
use bzapi.Base.{
  ℕ, ◌+◌, ◌*◌, ◌≤◌, ◌<◌, ◌^◌, ◌≡◌, ◌≢◌, refl, sym, subst, List, [], ◌∷◌, some, arith, nat_eq,
  list_eq, length,
}
use bzapi.Base.Text.{Bytes}
use bzapi.Base.Map.{Map, lookup, insert, lookup-insert}
use bzapi.Base.Outcome.{done}
use bzapi.Messages.{DatabaseMsg, DatabaseResponse, SendPolicy, normal, fastest, broadcast, Wire}
use bzapi.Dispatch.{
  Dispatch, MsgInfo, Effect, SwarmBase, new_message, send_message_to_swarm, setup_request_policy,
  setup_client_timeout,
}
use bzapi.Dispatch.Run.{Event, send, step, run}
use bzapi.Dispatch.Run.Once.{run-cons}
use bzapi.Dispatch.Run.Honest.{AllCalls, IsTrue, AllHonest, IsBelieved, IsTrusted}
use bzapi.Swarm.{NodeMap, Swarm, init_nodes, honest_majority_size}
use bzapi.Swarm.Usable.{IsUsable}
use bzapi.Swarm.Majority.{honest_majority_size-bounds}
use bzapi.Dispatch.Run.Keeps.{run-told}

-- A request that needs a quorum of more than the faulty nodes.
module _ (w : Wire) {H : Type 0} (faulty : List Bytes) (v : DatabaseResponse) where
  new-IsBelieved :
      (n timeout : ℕ) (info : MsgInfo H) (policy : SendPolicy)
      → policy ≢ fastest
      → length faulty < info.swarm.honest_majority_size
      → info.responses ≡ []
      → IsBelieved w n faulty v (setup_request_policy (setup_client_timeout timeout info) policy)
  unfolding setup_request_policy setup_client_timeout
  new-IsBelieved n timeout info normal slow few e = record {
    few = few;
    distinct = rw e tt;
    agree = rw e tt;
  }
  new-IsBelieved n timeout info fastest slow few e = absurd (slow refl)
  new-IsBelieved n timeout info broadcast slow few e = record {
    few = few;
    distinct = rw e tt;
    agree = rw e tt;
  }

  entered-IsBelieved :
      (n : ℕ) (new info : MsgInfo H) (messages : Map ℕ (MsgInfo H))
      → IsBelieved w n faulty v new
      → lookup n (insert n new messages) ≡ some info
      → IsBelieved w n faulty v info
  entered-IsBelieved n new info messages b e =
      let here : new ≡ info = ground (arith, lookup-insert n n new messages) in
      subst (IsBelieved w n faulty v) here b

  sent-IsTrusted :
      (s : Dispatch H) (timeout : ℕ) (swarm : SwarmBase) (db_uuid : Bytes) (msg : DatabaseMsg)
      (policy : SendPolicy) (handler : H)
      → policy ≢ fastest
      → length faulty < swarm.honest_majority_size
      → s.next_nonce + 1 < 2 ^ 64
      → IsTrusted w s.next_nonce faulty v
          (send_message_to_swarm w timeout swarm db_uuid msg policy handler s).0
  unfolding send_message_to_swarm
  sent-IsTrusted s timeout swarm db_uuid msg policy handler slow few small = record {
    given = omega arith;
    believed = λ info. entered-IsBelieved s.next_nonce _ info s.messages (
        new-IsBelieved s.next_nonce timeout (new_message swarm _ policy handler) policy slow few
          refl);
  }

  -- A request is sent with a policy other than `fastest` through a swarm that is usable, has `m` for its
  -- nodes, fewer than 2 ^ 64, and gives the dispatcher its `honest_majority_size`; `m` has more than
  -- three times as many nodes as `faulty` has names. Whatever happens then (fewer events than there are
  -- nonces left), if every response to this request whose sender field does not hold a name of `faulty`
  -- (the empty name included if it is none of them, and whether signed or not) is equal to `v`: each
  -- answer that the caller gets is either the timeout's error or equal to `v`. The condition is on the
  -- names that the responses bear, not on who sent them: a quick read's answer may come unsigned, under
  -- any name.
  pub run-trusted :
      {K : Type 0} (sw : Swarm K) (m : NodeMap) (base : SwarmBase) (s s' : Dispatch H) (timeout : ℕ)
      (db_uuid : Bytes) (msg : DatabaseMsg) (policy : SendPolicy) (handler : H)
      (es : List (Event H)) (out : List (Effect H))
      → IsUsable sw
      → (init_nodes sw).0.nodes ≡ some m
      → length m < 2 ^ 64
      → honest_majority_size sw ≡ done ((init_nodes sw).0, base.honest_majority_size)
      → 3 * length faulty + 1 ≤ length m
      → policy ≢ fastest
      → s.next_nonce + 1 + length es < 2 ^ 64
      → AllHonest w s.next_nonce faulty v es
      → run w s (send timeout base db_uuid msg policy handler ∷ es) ≡ done (s', out)
      → AllCalls s.next_nonce (IsTrue w v) out
  unfolding step send_message_to_swarm
  run-trusted sw m base s s' timeout db_uuid msg policy handler es out usable nodes bound asks few
        slow small honest e =
      let (q, f, size, low, high, less, enough) =
        honest_majority_size-bounds sw m usable nodes bound in
      let quorum : q ≡ base.honest_majority_size = cc in
      let begun =
        sent-IsTrusted s timeout base db_uuid msg policy handler slow (omega arith) (omega arith) in
      let (out2, h2, joined) =
        run-cons w s (send timeout base db_uuid msg policy handler) es
          {s1 = (send_message_to_swarm w timeout base db_uuid msg policy handler s).0}
          {out1 = (send_message_to_swarm w timeout base db_uuid msg policy handler s).1} refl e in
      subst (AllCalls s.next_nonce (IsTrue w v)) (sym joined)
        (run-told w s.next_nonce faulty v _ s' es out2 (omega arith) honest begun h2)
