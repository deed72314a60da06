-- ===== src/Dispatch/Run/Keeps.antt =====
-- What each event keeps, while the responses under all names outside `faulty` agree.
use bzapi.Base.{
  ℕ, ◌+◌, ◌≤◌, ◌<◌, ◌^◌, ◌≡◌, inl, inr, sym, subst, List, [], ◌∷◌, some, arith, nat_beq, nat_eq,
  list_eq, length, Bool-cases,
}
use bzapi.Base.Text.{Bytes}
use bzapi.Base.Map.{lookup, insert, lookup-insert, lookup-erase}
use bzapi.Base.Outcome.{done, >>=-eq-done}
use bzapi.Messages.{DatabaseMsg, DatabaseResponse, SendPolicy, Wire}
use bzapi.Dispatch.{Dispatch, MsgInfo, Effect, SwarmBase, send_message_to_swarm}
use bzapi.Dispatch.Handlers.{forget}
use bzapi.Dispatch.Handlers.Steps.{
  handle_request_timeout-Change, handle_client_timeout-Change, handle_swarm_error-Change,
  handle_swarm_response-Change,
}
use bzapi.Dispatch.Handlers.Change.{
  Cause, Update, Change, same, stored, dropped, answered, Returns, Ensures-outcome,
}
use bzapi.Dispatch.Run.{Event, send, response, error, retry_timeout, client_timeout, step, run}
use bzapi.Dispatch.Run.Once.{prepend-eq-done}
use bzapi.Dispatch.Run.Honest.{
  AllCalls, AllCalls-quiet, AllCalls-append, IsTrue, AllHonest, IsBelieved, IsTrusted,
  IsHonestCause, nothing-IsHonestCause, timed_out-IsHonestCause, received-IsHonestCause,
  Update-IsBelieved,
}

module _ (w : Wire) {H : Type 0} (n : ℕ) (faulty : List Bytes) (v : DatabaseResponse) where
  store-IsTrusted :
      (s : Dispatch H) (m : ℕ) (new : MsgInfo H)
      → IsTrusted w n faulty v s
      → (m ≡ n → IsBelieved w n faulty v new)
      → IsTrusted w n faulty v
          (record { next_nonce = s.next_nonce; messages = insert m new s.messages })
  store-IsTrusted s m new t b = record {
    given = t.given;
    believed = λ info e. elim (Bool-cases (nat_beq m n)) [
      | inl hit ↦
          let here : new ≡ info = ground (arith, lookup-insert m n new s.messages) in
          subst (IsBelieved w n faulty v) here (b (ground (arith, hit)))
      | inr miss ↦ t.believed info (ground (arith, lookup-insert m n new s.messages))
    ];
  }

  forget-IsTrusted :
      (s : Dispatch H) (m : ℕ) → IsTrusted w n faulty v s → IsTrusted w n faulty v (forget s m)
  forget-IsTrusted s m t = record {
    given = t.given;
    believed = λ info e. t.believed info (ground (arith, lookup-erase m n s.messages));
  }

  -- What an event keeps, and what the caller of message `n` hears.
  record Keeps (s s' : Dispatch H) (out : List (Effect H)) : Type 0 where
    up : s'.next_nonce ≤ s.next_nonce + 1
    trusted : IsTrusted w n faulty v s'
    told : AllCalls n (IsTrue w v) out

  Change-Keeps :
      {c : Cause H} {s s' : Dispatch H} {out : List (Effect H)}
      → IsHonestCause w n faulty v c
      → Change c s s' out
      → IsTrusted w n faulty v s
      → Keeps s s' out
  Change-Keeps {c} {s} {s'} {out} honest (same q) t = record {
    up = omega arith;
    trusted = t;
    told = AllCalls-quiet n _ out (q n);
  }
  Change-Keeps {c} {s} {s'} {out} honest (stored m old new e u q) t = record {
    up = omega arith;
    trusted = store-IsTrusted s m new t (λ hit.
        Update-IsBelieved w n faulty v honest (subst (λ k. Update c k old new) hit u)
          (t.believed old (subst (λ k. lookup k s.messages ≡ some old) hit e)));
    told = AllCalls-quiet n _ out (q n);
  }
  Change-Keeps {c} {s} {s'} {out} honest (dropped m old e q) t = record {
    up = omega arith;
    trusted = forget-IsTrusted s m t;
    told = AllCalls-quiet n _ out (q n);
  }
  Change-Keeps {c} {s} honest (answered m old r e a) t = record {
    up = omega arith;
    trusted = forget-IsTrusted s m t;
    told = (
      λ hit.
          honest.answers old r (subst (λ k. c.Answers k old r) hit a)
            (t.believed old (subst (λ k. lookup k s.messages ≡ some old) hit e)),
      tt,
    );
  }

  send-Keeps :
      (s : Dispatch H) (timeout : ℕ) (swarm : SwarmBase) (db_uuid : Bytes) (msg : DatabaseMsg)
      (policy : SendPolicy) (handler : H)
      → s.next_nonce + 1 < 2 ^ 64
      → IsTrusted w n faulty v s
      → (let r = send_message_to_swarm w timeout swarm db_uuid msg policy handler s in
          Keeps s r.0 r.1)
  unfolding send_message_to_swarm
  send-Keeps s timeout swarm db_uuid msg policy handler small t = record {
    up = omega arith;
    trusted = record {
      given = omega (arith, t.given);
      believed =
          (store-IsTrusted s s.next_nonce _ t
            (λ hit. absurd (omega (arith, t.given, hit)))).believed;
    };
    told = tt;
  }

  step-Keeps :
      (s s' : Dispatch H) (e : Event H) (out : List (Effect H))
      → s.next_nonce + 1 < 2 ^ 64
      → AllHonest w n faulty v (e ∷ [])
      → IsTrusted w n faulty v s
      → step w s e ≡ done (s', out)
      → Keeps s s' out
  unfolding step
  step-Keeps s s' (send timeout swarm db_uuid msg policy handler) out small honest t e =
      subst (Returns (Keeps s)) e (send-Keeps s timeout swarm db_uuid msg policy handler small t)
  step-Keeps s s' (response env) out small honest t e =
      Change-Keeps (received-IsHonestCause w n faulty v env honest.0)
        (Ensures-outcome _ (handle_swarm_response-Change w s env) e) t
  step-Keeps s s' (error env) out small honest t e =
      Change-Keeps (nothing-IsHonestCause w n faulty v)
        (Ensures-outcome _ (handle_swarm_error-Change w s env) e) t
  step-Keeps s s' (retry_timeout ec m) out small honest t e =
      Change-Keeps (nothing-IsHonestCause w n faulty v)
        (Ensures-outcome _ (handle_request_timeout-Change s ec m) e) t
  step-Keeps s s' (client_timeout ec m) out small honest t e =
      subst (Returns (Keeps s)) e (
        Change-Keeps (timed_out-IsHonestCause w n faulty v) (handle_client_timeout-Change s ec m) t)

  AllHonest-cons :
      (e : Event H) (es : List (Event H))
      → AllHonest w n faulty v (e ∷ es)
      → AllHonest w n faulty v (e ∷ []) × AllHonest w n faulty v es
  AllHonest-cons (response env) es h = ((h.0, tt), h.1)
  AllHonest-cons (send timeout swarm db_uuid msg policy handler) es h = (tt, h)
  AllHonest-cons (error env) es h = (tt, h)
  AllHonest-cons (retry_timeout ec m) es h = (tt, h)
  AllHonest-cons (client_timeout ec m) es h = (tt, h)

  pub run-told :
      (s s' : Dispatch H) (es : List (Event H)) (out : List (Effect H))
      → s.next_nonce + length es < 2 ^ 64
      → AllHonest w n faulty v es
      → IsTrusted w n faulty v s
      → run w s es ≡ done (s', out)
      → AllCalls n (IsTrue w v) out
  unfolding run
  run-told s s' [] out small honest t e = subst (Returns (λ t o. AllCalls n (IsTrue w v) o)) e tt
  run-told s s' (ev ∷ es) out small honest t e =
      let ((s1, out1), h1, k1) = >>=-eq-done (step w s ev) _ e in
      let (out2, h2, joined) = prepend-eq-done out1 (run w s1 es) k1 in
      let (now, later) = AllHonest-cons ev es honest in
      let k = step-Keeps s s1 ev out1 (omega arith) now t h1 in
      subst (AllCalls n (IsTrue w v)) (sym joined) (
        AllCalls-append n _ out1 out2 k.told
          (run-told s1 s' es out2 (omega (arith, k.up)) later k.trusted h2))
