-- ===== src/Dispatch/Run/Once.antt =====
-- A message's handler is called at most once, and never after the message was given up.
use bzapi.Base.{
  ℕ, ◌+◌, ◌≤◌, ◌<◌, ◌^◌, ◌%◌, ◌≡◌, refl, subst, List, [], ◌∷◌, ◌++◌, Option, none, some, arith,
  if◌then◌else◌, leb, nat_eq, length,
}
use bzapi.Base.Text.{Bytes}
use bzapi.Base.Map.{lookup, insert, lookup-insert, lookup-erase}
use bzapi.Base.Outcome.{Outcome, done, threw, undefined, ◌>>=◌, >>=-eq-done}
use bzapi.Messages.{Envelope, DatabaseMsg, SendPolicy, Wire}
use bzapi.Dispatch.{
  Dispatch, init, MsgInfo, Effect, call, register_swarm_handler, send_request, SwarmBase,
  send_message_to_swarm,
}
use bzapi.Dispatch.Handlers.{forget}
use bzapi.Dispatch.Handlers.Steps.{
  handle_request_timeout-Change, handle_client_timeout-Change, handle_swarm_error-Change,
  handle_swarm_response-Change,
}
use bzapi.Dispatch.Handlers.Change.{
  calls, Returns, Change, Cause, same, stored, dropped, answered, Ensures-outcome,
}
use bzapi.Dispatch.Run.{
  Event, send, response, error, retry_timeout, client_timeout, prepend, step, run,
}

-- No message waits under a nonce that is still to be given out.
pub record IsFresh {H : Type 0} (s : Dispatch H) : Type 0 where
  pub fresh : (n : ℕ) → s.next_nonce ≤ n → lookup n s.messages ≡ none

-- 1 while the handler of message `n` may still be called, and 0 from then on.
abbrev waiting_at : {H : Type 0} → Option (MsgInfo H) → ℕ
waiting_at none = 0
waiting_at (some info) = 1

abbrev pub chance : {H : Type 0} → ℕ → Dispatch H → ℕ
chance n s = if leb s.next_nonce n then 1 else waiting_at (lookup n s.messages)

-- What a step does to the nonces, and to the calls that may still come.
record Advances {H : Type 0} (s s' : Dispatch H) (out : List (Effect H)) : Type 0 where
  up : s'.next_nonce ≤ s.next_nonce + 1
  is_fresh : IsFresh s'
  counted : (n : ℕ) → calls n out + chance n s' ≤ chance n s

module _ {H : Type 0} {s : Dispatch H} (f : IsFresh s) where
  pub known-lt : (n : ℕ) (info : MsgInfo H) → lookup n s.messages ≡ some info → n < s.next_nonce
  known-lt n info e = ground (arith, f.fresh n)

  pub forget-IsFresh : (m : ℕ) → IsFresh (forget s m)
  forget-IsFresh m = record {
    fresh = λ n h. ground (arith, lookup-erase m n s.messages, f.fresh n h);
  }

  Change-Advances :
      {c : Cause H} {s' : Dispatch H} {out : List (Effect H)}
      → Change c s s' out
      → Advances s s' out
  Change-Advances (same q) = record {
    up = omega arith;
    is_fresh = f;
    counted = λ n. omega (arith, q n);
  }
  Change-Advances (stored m old new e u q) = record {
    up = omega arith;
    is_fresh = record {
      fresh =
          λ n h. ground (arith, lookup-insert m n new s.messages, known-lt m old e, f.fresh n h);
    };
    counted = λ n. ground (arith, q n, lookup-insert m n new s.messages);
  }
  Change-Advances (dropped m old e q) = record {
    up = omega arith;
    is_fresh = forget-IsFresh m;
    counted = λ n. ground (arith, q n, lookup-erase m n s.messages);
  }
  Change-Advances (answered m old r e a) = record {
    up = omega arith;
    is_fresh = forget-IsFresh m;
    counted = λ n. ground (arith, known-lt m old e, lookup-erase m n s.messages);
  }

  entered-Advances :
      s.next_nonce + 1 < 2 ^ 64
      → (info : MsgInfo H) (swarm : SwarmBase) (env : Envelope) (policy : SendPolicy)
      → Advances s
          (record {
            next_nonce = (s.next_nonce + 1) % 2 ^ 64;
            messages = insert s.next_nonce info s.messages;
          })
          (register_swarm_handler swarm ∷ send_request swarm env policy ∷ [])
  entered-Advances small info swarm env policy = record {
    up = omega arith;
    is_fresh = record {
      fresh = λ n h. ground (arith, lookup-insert s.next_nonce n info s.messages, f.fresh n);
    };
    counted = λ n. ground (arith, lookup-insert s.next_nonce n info s.messages);
  }

pub prepend-eq-done :
    {H : Type 0} (out1 : List (Effect H)) (m : Outcome (Dispatch H × List (Effect H)))
    {s : Dispatch H} {out : List (Effect H)}
    → (m >>= λ r. done (prepend out1 r)) ≡ done (s, out)
    → (out2 : List (Effect H)) × (m ≡ done (s, out2)) × (out ≡ out1 ++ out2)
prepend-eq-done out1 (done (s2, out2)) e = (out2, ground arith, ground arith)
prepend-eq-done out1 threw e = cc
prepend-eq-done out1 undefined e = cc

module _ (w : Wire) {H : Type 0} where
  send-Advances :
      (s : Dispatch H) (timeout : ℕ) (swarm : SwarmBase) (db_uuid : Bytes) (msg : DatabaseMsg)
      (policy : SendPolicy) (handler : H)
      → IsFresh s
      → s.next_nonce + 1 < 2 ^ 64
      → (let r = send_message_to_swarm w timeout swarm db_uuid msg policy handler s in
          Advances s r.0 r.1)
  unfolding send_message_to_swarm
  send-Advances s timeout swarm db_uuid msg policy handler f small =
      entered-Advances f small _ _ _ _

  step-Advances :
      (s s' : Dispatch H) (e : Event H) (out : List (Effect H))
      → IsFresh s
      → s.next_nonce + 1 < 2 ^ 64
      → step w s e ≡ done (s', out)
      → Advances s s' out
  unfolding step
  step-Advances s s' (send timeout swarm db_uuid msg policy handler) out f small e =
      subst (Returns (Advances s)) e
        (send-Advances s timeout swarm db_uuid msg policy handler f small)
  step-Advances s s' (response env) out f small e =
      Change-Advances f (Ensures-outcome _ (handle_swarm_response-Change w s env) e)
  step-Advances s s' (error env) out f small e =
      Change-Advances f (Ensures-outcome _ (handle_swarm_error-Change w s env) e)
  step-Advances s s' (retry_timeout ec n) out f small e =
      Change-Advances f (Ensures-outcome _ (handle_request_timeout-Change s ec n) e)
  step-Advances s s' (client_timeout ec n) out f small e =
      subst (Returns (Advances s)) e (Change-Advances f (handle_client_timeout-Change s ec n))

  calls-append : (n : ℕ) (xs ys : List (Effect H)) → calls n (xs ++ ys) ≡ calls n xs + calls n ys
  calls-append n [] ys = omega arith
  calls-append n (call m h r ∷ xs) ys = ground (arith, calls-append n xs ys)
  calls-append n (register_swarm_handler sw ∷ xs) ys = calls-append n xs ys
  calls-append n (send_request sw env policy ∷ xs) ys = calls-append n xs ys

  -- Inversion of a history that begins with a step.
  pub run-cons :
      (s : Dispatch H) (e : Event H) (es : List (Event H)) {s1 s' : Dispatch H}
      {out1 out : List (Effect H)}
      → step w s e ≡ done (s1, out1)
      → run w s (e ∷ es) ≡ done (s', out)
      → (out2 : List (Effect H)) × (run w s1 es ≡ done (s', out2)) × (out ≡ out1 ++ out2)
  unfolding run
  run-cons s e es {s1} {s'} {out1} {out} h k = prepend-eq-done out1 (run w s1 es) (rw h at k)

  -- However a history goes on, no more calls of a message's handler come than were still to come.
  pub run-calls-le :
      (s s' : Dispatch H) (es : List (Event H)) (out : List (Effect H)) (n : ℕ)
      → IsFresh s
      → s.next_nonce + length es < 2 ^ 64
      → run w s es ≡ done (s', out)
      → calls n out ≤ chance n s
  unfolding run
  run-calls-le s s' [] out n f small e = ground arith
  run-calls-le s s' (ev ∷ es) out n f small e =
      let ((s1, out1), h1, k1) = >>=-eq-done (step w s ev) _ e in
      let (out2, h2, joined) = prepend-eq-done out1 (run w s1 es) k1 in
      let a = step-Advances s s1 ev out1 f (omega arith) h1 in
      let later = run-calls-le s1 s' es out2 n a.is_fresh (omega (arith, a.up)) h2 in
      ground (arith, joined, a.counted n, later, calls-append n out1 out2)

init-IsFresh : {H : Type 0} → IsFresh (init {H = H})
unfolding lookup
init-IsFresh = record { fresh = λ n h. refl }

-- In any history from the start (of fewer events than there are nonces) that meets no undefined
-- behaviour, the handler of each message is called at most once.
pub run-calls_once :
    (w : Wire) {H : Type 0} (s' : Dispatch H) (es : List (Event H)) (out : List (Effect H)) (n : ℕ)
    → 1 + length es < 2 ^ 64
    → run w init es ≡ done (s', out)
    → calls n out ≤ 1
run-calls_once w s' es out n small e =
    let bound = run-calls-le w init s' es out n init-IsFresh small e in ground (arith, bound)
