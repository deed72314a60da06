-- ===== src/Dispatch/Handlers/Timers.antt =====
-- The two timers of a message.
use bzapi.Base.{ℕ, ◌≡◌, refl, [], ◌∷◌, some, nat_eq, eq_refl, ◌∙◌}
use bzapi.Base.Text.{Bytes}
use bzapi.Base.Map.{lookup, lookup-insert}
use bzapi.Messages.{DatabaseMsg, SendPolicy, normal, fastest, broadcast, Wire}
use bzapi.Dispatch.{
  Dispatch, MsgInfo, SwarmBase, call, no_error, new_message, send_message_to_swarm,
  setup_request_policy, setup_client_timeout,
}
use bzapi.Dispatch.Handlers.{forget, timeout_response, handle_client_timeout, give_up}

pub handle_client_timeout-known :
    {H : Type 0} (s : Dispatch H) (n : ℕ) (info : MsgInfo H)
    → lookup n s.messages ≡ some info
    → handle_client_timeout no_error n s ≡ (forget s n, call n info.handler timeout_response ∷ [])
unfolding handle_client_timeout
handle_client_timeout-known s n info known = rw (known, give_up)

-- A message that was just sent waits under its nonce with the caller's handler.
setup-handler :
    {H : Type 0} (timeout : ℕ) (info : MsgInfo H) (policy : SendPolicy)
    → (setup_request_policy (setup_client_timeout timeout info) policy).handler ≡ info.handler
unfolding setup_request_policy setup_client_timeout
setup-handler timeout info normal = refl
setup-handler timeout info fastest = refl
setup-handler timeout info broadcast = refl

pub client_timeout-send :
    (w : Wire) {H : Type 0} (timeout : ℕ) (swarm : SwarmBase) (db_uuid : Bytes) (msg : DatabaseMsg)
    (policy : SendPolicy) (handler : H) (s : Dispatch H)
    → (let s1 = (send_message_to_swarm w timeout swarm db_uuid msg policy handler s).0 in
        handle_client_timeout no_error s.next_nonce s1
        ≡ (forget s1 s.next_nonce, call s.next_nonce handler timeout_response ∷ []))
unfolding send_message_to_swarm
client_timeout-send w timeout swarm db_uuid msg policy handler s =
    let info =
      setup_request_policy
        (setup_client_timeout timeout
          (new_message swarm (swarm.sign_and_date_request _ policy) policy handler))
        policy in
    handle_client_timeout-known _ s.next_nonce info
      (lookup-insert s.next_nonce s.next_nonce info s.messages ∙ rw (eq_refl s.next_nonce))
    ∙ rw setup-handler
