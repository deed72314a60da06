-- ===== src/Dispatch/Run/Soundness.antt =====
-- What holds of the waiting messages at any time, and that no response breaks an assertion.
use bzapi.Base.{
  ℕ, ◌≡◌, ◌≢◌, refl, subst, List, [], ◌∷◌, some, arith, nat_beq, nat_eq, list_eq, Bool-cases, inl,
  inr,
}
use bzapi.Base.Text.{Bytes}
use bzapi.Base.Map.{lookup, insert, lookup-insert, lookup-erase, Distinct, insert-Distinct}
use bzapi.Base.Outcome.{done, undefined, >>=-eq-done}
use bzapi.Messages.{DatabaseMsg, Envelope, SendPolicy, normal, fastest, broadcast, Wire}
use bzapi.Dispatch.{
  Dispatch, MsgInfo, Effect, SwarmBase, init, new_message, send_message_to_swarm,
  setup_request_policy, setup_client_timeout,
}
use bzapi.Dispatch.Handlers.{forget}
use bzapi.Dispatch.Handlers.Steps.{
  handle_request_timeout-Change, handle_client_timeout-Change, handle_swarm_error-Change,
  handle_swarm_response-Change,
}
use bzapi.Dispatch.Handlers.Change.{
  Change, Cause, same, stored, dropped, answered, Update, timer_set, collected, Returns,
  Ensures-outcome,
}
use bzapi.Dispatch.Run.{Event, send, response, error, retry_timeout, client_timeout, step, run}
use bzapi.Dispatch.Run.Once.{prepend-eq-done}
use bzapi.Dispatch.Handlers.Responses.{handle_swarm_response-defined, outcome-eq-undefined}

-- One response for each sender, and none yet where one is enough.
pub record IsPending {H : Type 0} (info : MsgInfo H) : Type 0 where
  pub distinct : Distinct info.responses
  pub single : info.responses_required ≡ 1 → info.responses ≡ []

pub record IsSound {H : Type 0} (s : Dispatch H) : Type 0 where
  pub pending : (n : ℕ) (info : MsgInfo H) → lookup n s.messages ≡ some info → IsPending info

module _ {H : Type 0} where
  Update-IsPending :
      {c : Cause H} {n : ℕ} {old new : MsgInfo H}
      → Update c n old new
      → IsPending old
      → IsPending new
  Update-IsPending (timer_set h q r) p = record {
    distinct = rw r p.distinct;
    single = ground (arith, p.single);
  }
  Update-IsPending {old} (collected sender r h q e from many) p = record {
    distinct = rw e (insert-Distinct sender r old.responses p.distinct);
    single = λ one. absurd (many (ground arith));
  }

  store-IsSound :
      (s : Dispatch H) (n : ℕ) (new : MsgInfo H)
      → IsSound s
      → IsPending new
      → IsSound (record { next_nonce = s.next_nonce; messages = insert n new s.messages })
  store-IsSound s n new v p = record {
    pending = λ m info e. elim (Bool-cases (nat_beq n m)) [
      | inl hit ↦
          let here : new ≡ info = ground (arith, lookup-insert n m new s.messages) in
          subst IsPending here p
      | inr miss ↦ v.pending m info (ground (arith, lookup-insert n m new s.messages))
    ];
  }

  forget-IsSound : (s : Dispatch H) (n : ℕ) → IsSound s → IsSound (forget s n)
  forget-IsSound s n v = record {
    pending = λ m info e. v.pending m info (ground (arith, lookup-erase n m s.messages));
  }

  Change-IsSound :
      {c : Cause H} {s s' : Dispatch H} {out : List (Effect H)}
      → Change c s s' out
      → IsSound s
      → IsSound s'
  Change-IsSound (same q) v = v
  Change-IsSound {c} {s} (stored n old new e u q) v =
      store-IsSound s n new v (Update-IsPending u (v.pending n old e))
  Change-IsSound {c} {s} (dropped n old e q) v = forget-IsSound s n v
  Change-IsSound {c} {s} (answered n old r e a) v = forget-IsSound s n v

  new-IsPending :
      (timeout : ℕ) (info : MsgInfo H) (policy : SendPolicy)
      → info.responses ≡ []
      → IsPending (setup_request_policy (setup_client_timeout timeout info) policy)
  unfolding setup_request_policy setup_client_timeout
  new-IsPending timeout info normal e = record { distinct = rw e tt; single = λ one. e }
  new-IsPending timeout info fastest e = record { distinct = rw e tt; single = λ one. e }
  new-IsPending timeout info broadcast e = record { distinct = rw e tt; single = λ one. e }

module _ (w : Wire) {H : Type 0} where
  send-IsSound :
      (s : Dispatch H) (timeout : ℕ) (swarm : SwarmBase) (db_uuid : Bytes) (msg : DatabaseMsg)
      (policy : SendPolicy) (handler : H)
      → IsSound s
      → IsSound (send_message_to_swarm w timeout swarm db_uuid msg policy handler s).0
  unfolding send_message_to_swarm
  send-IsSound s timeout swarm db_uuid msg policy handler v = record {
    pending =
        (store-IsSound s s.next_nonce _ v
          (new-IsPending timeout (new_message swarm _ policy handler) policy refl)).pending;
  }

  step-IsSound :
      (s s' : Dispatch H) (e : Event H) (out : List (Effect H))
      → step w s e ≡ done (s', out)
      → IsSound s
      → IsSound s'
  unfolding step
  step-IsSound s s' (send timeout swarm db_uuid msg policy handler) out e v =
      subst (Returns (λ t o. IsSound t)) e
        (send-IsSound s timeout swarm db_uuid msg policy handler v)
  step-IsSound s s' (response env) out e v =
      Change-IsSound (Ensures-outcome _ (handle_swarm_response-Change w s env) e) v
  step-IsSound s s' (error env) out e v =
      Change-IsSound (Ensures-outcome _ (handle_swarm_error-Change w s env) e) v
  step-IsSound s s' (retry_timeout ec n) out e v =
      Change-IsSound (Ensures-outcome _ (handle_request_timeout-Change s ec n) e) v
  step-IsSound s s' (client_timeout ec n) out e v =
      subst (Returns (λ t o. IsSound t)) e (Change-IsSound (handle_client_timeout-Change s ec n) v)

  -- If each waiting message has one response at most for each sender, and none where one would be
  -- enough, then this holds after every history too.
  pub run-IsSound :
      (s s' : Dispatch H) (es : List (Event H)) (out : List (Effect H))
      → IsSound s
      → run w s es ≡ done (s', out)
      → IsSound s'
  unfolding run
  run-IsSound s s' [] out v e = subst (Returns (λ t o. IsSound t)) e v
  run-IsSound s s' (ev ∷ es) out v e =
      let ((s1, out1), h1, k1) = >>=-eq-done (step w s ev) _ e in
      let (out2, h2, joined) = prepend-eq-done out1 (run w s1 es) k1 in
      run-IsSound s1 s' es out2 (step-IsSound s s1 ev out1 h1 v) h2

  -- If each waiting message has one response at most for each sender, and none where one would be
  -- enough, then no response that comes in leads to undefined behaviour or a failed assertion.
  pub step-response-defined :
      (s : Dispatch H) (env : Envelope) → IsSound s → step w s (response env) ≢ undefined
  unfolding step
  step-response-defined s env v e =
      handle_swarm_response-defined w s env (λ n info known. (v.pending n info known).single)
        (outcome-eq-undefined _ e)

pub init-IsSound : {H : Type 0} → IsSound (init {H = H})
unfolding lookup
init-IsSound = record { pending = λ n info e. absurd (ground arith) }
