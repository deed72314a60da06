-- ===== src/Dispatch/Run/Duplicate.antt =====
-- A swarm's error "DUPLICATE REQUEST" about a request, by the policy that it was sent with.
use bzapi.Base.{
  ℕ, ◌≡◌, ◌≢◌, ◌↔◌, refl, ◌∙◌, [], ◌∷◌, false, Option, none, some, nat_eq, eq_refl, if-true, ◌==◌,
}
use bzapi.Base.Text.{Bytes}
use bzapi.Base.Map.{Map, insert, lookup, lookup-insert}
use bzapi.Base.Decimal.{stoull}
use bzapi.Base.Outcome.{done, undefined}
use bzapi.Messages.{
  Envelope, DatabaseMsg, SwarmError, SendPolicy, normal, fastest, broadcast, duplicate_error_msg,
  Wire,
}
use bzapi.Dispatch.{
  Dispatch, MsgInfo, SwarmBase, Timer, waiting, cancelled, request_retry_time, swarm_error_of,
  send_message_to_swarm, setup_request_policy, setup_client_timeout,
}
use bzapi.Dispatch.Handlers.{handle_swarm_error, store}
use bzapi.Dispatch.Handlers.Errors.{Reports, handle_swarm_error-duplicate}
use bzapi.Dispatch.Run.{send, error, step, run}

-- The retry timer of a new request.
abbrev first_timer : SendPolicy → Option Timer
first_timer fastest = none
first_timer normal = some (waiting request_retry_time)
first_timer broadcast = some (waiting request_retry_time)

module _ {H : Type 0} (n : ℕ) (messages : Map ℕ (MsgInfo H)) where
  stored : (info : MsgInfo H) → lookup n (insert n info messages) ≡ some info
  stored info = lookup-insert n n info messages ∙ if-true _ _ (n == n) (eq_refl n)

module _ (w : Wire) {H : Type 0} (s : Dispatch H) (timeout : ℕ) (base : SwarmBase) (db_uuid : Bytes)
    (msg : DatabaseMsg) (handler : H) where
  abbrev sent : SendPolicy → Dispatch H
  sent policy = (send_message_to_swarm w timeout base db_uuid msg policy handler s).0

  sent-known :
      (policy : SendPolicy)
      → (info : MsgInfo H) × (lookup s.next_nonce (sent policy).messages ≡ some info)
        × (info.retry_timer ≡ first_timer policy)
  unfolding send_message_to_swarm setup_request_policy setup_client_timeout
  sent-known normal = (_, stored s.next_nonce s.messages _, refl)
  sent-known fastest = (_, stored s.next_nonce s.messages _, refl)
  sent-known broadcast = (_, stored s.next_nonce s.messages _, refl)

  module _ (env : Envelope) (err : SwarmError) where
    sent-Reports :
        (policy : SendPolicy) (info : MsgInfo H)
        → w.parse_error (swarm_error_of env.payload) ≡ some err
        → stoull err.error_data ≡ some s.next_nonce
        → s.next_nonce ≢ 0
        → lookup s.next_nonce (sent policy).messages ≡ some info
        → Reports w (sent policy) env err s.next_nonce info
    sent-Reports policy info parsed about nonzero known = record {
      parsed = parsed;
      about = about;
      nonzero = nonzero;
      known = known;
    }

    -- A request is sent, and then comes the swarm's error "DUPLICATE REQUEST" about it: a null pointer
    -- is followed exactly if the policy of the request is `fastest`, which sets no retry timer. The
    -- nonce of the request is not 0.
    pub run-duplicate :
        (policy : SendPolicy)
        → w.parse_error (swarm_error_of env.payload) ≡ some err
        → stoull err.error_data ≡ some s.next_nonce
        → s.next_nonce ≢ 0
        → err.message ≡ duplicate_error_msg
        → (run w s (send timeout base db_uuid msg policy handler ∷ error env ∷ []) ≡ undefined)
          ↔ (policy ≡ fastest)
    unfolding run step
    run-duplicate policy parsed about nonzero dup =
        let (info, known, timer) = sent-known policy in
        let reports = sent-Reports policy info parsed about nonzero known in
        let answer = handle_swarm_error-duplicate w reports dup in
        by_policy policy info answer timer
      where
        by_policy :
            (policy : SendPolicy) (info : MsgInfo H)
            → handle_swarm_error w env (sent policy) ≡ elim info.retry_timer [
              | none ↦ undefined
              | some t ↦ done (
                store (sent policy) s.next_nonce (record info { retry_timer = some cancelled }),
                [],
                false,
              )
            ]
            → info.retry_timer ≡ first_timer policy
            → (run w s (send timeout base db_uuid msg policy handler ∷ error env ∷ []) ≡ undefined)
              ↔ (policy ≡ fastest)
        by_policy fastest info answer timer =
            (λ e. refl, λ e. rw (answer, run, step) (rw timer refl))
        by_policy normal info answer timer =
            let told = rw timer at answer in
            (λ e. absurd (let e1 = rw (told, run, step) at e in cc), λ e. absurd (cc))
        by_policy broadcast info answer timer =
            let told = rw timer at answer in
            (λ e. absurd (let e1 = rw (told, run, step) at e in cc), λ e. absurd (cc))
