-- ===== src/Dispatch/Run/GivenUp.antt =====
-- What a caller hears of a message that is given up, and of one that times out.
use bzapi.Base.{ℕ, ◌+◌, ◌<◌, ◌^◌, ◌≡◌, List, [], ◌∷◌, some, arith, length, nat_eq}
use bzapi.Base.Map.{lookup, lookup-erase}
use bzapi.Base.Outcome.{done}
use bzapi.Messages.{Envelope, SwarmError, Wire}
use bzapi.Dispatch.{Dispatch, MsgInfo, Effect, call, no_error}
use bzapi.Dispatch.Handlers.{forget, timeout_response}
use bzapi.Dispatch.Handlers.Change.{calls}
use bzapi.Dispatch.Handlers.Errors.{Reports, IsFatal, handle_swarm_error-fatal}
use bzapi.Dispatch.Handlers.Timers.{handle_client_timeout-known}
use bzapi.Dispatch.Run.{Event, error, client_timeout, step, run}
use bzapi.Dispatch.Run.Once.{IsFresh, run-cons, known-lt, forget-IsFresh, run-calls-le}

module _ (w : Wire) {H : Type 0} {info : MsgInfo H} (s : Dispatch H) (n : ℕ) where
  step-fatal :
      (env : Envelope) (err : SwarmError)
      → Reports w s env err n info
      → IsFatal err.message
      → step w s (error env) ≡ done (forget s n, [])
  unfolding step
  step-fatal env err reports fatal = rw (handle_swarm_error-fatal w reports fatal)

  step-client_timeout :
      lookup n s.messages ≡ some info
      → step w s (client_timeout no_error n)
        ≡ done (forget s n, call n info.handler timeout_response ∷ [])
  unfolding step
  step-client_timeout known = rw (handle_client_timeout-known s n info known)

module _ (w : Wire) {H : Type 0} {info : MsgInfo H} (s s' : Dispatch H) (n : ℕ) where
  -- After a message is forgotten no call of its handler comes any more.
  run-forget-calls :
      (es : List (Event H)) (out : List (Effect H))
      → IsFresh s
      → lookup n s.messages ≡ some info
      → s.next_nonce + length es < 2 ^ 64
      → run w (forget s n) es ≡ done (s', out)
      → calls n out ≡ 0
  run-forget-calls es out f known small e =
      let bound = run-calls-le w (forget s n) s' es out n (forget-IsFresh f n) small e in
      ground (arith, known-lt f n info known, lookup-erase n n s.messages, bound)

  -- A swarm's error "INVALID TIMESTAMP" or "REQUEST TOO LARGE" about a waiting message ends it
  -- without a word: whatever happens afterwards (in fewer events than there are nonces left, with no
  -- message waiting under a nonce that is still to be given out), its handler is never called, not
  -- even by the client's timeout.
  pub run-given_up :
      (env : Envelope) (err : SwarmError) (es : List (Event H)) (out : List (Effect H))
      → Reports w s env err n info
      → IsFatal err.message
      → IsFresh s
      → s.next_nonce + length es < 2 ^ 64
      → run w s (error env ∷ es) ≡ done (s', out)
      → calls n out ≡ 0
  run-given_up env err es out reports fatal f small e =
      let (out2, h, same) =
        run-cons w s (error env) es (step-fatal w s n env err reports fatal) e in
      rw same (run-forget-calls es out2 f reports.known small h)

  -- When the client's timeout of a waiting message comes, its handler is called with the error
  -- "Request timeout", and never again (in fewer events than there are nonces left, with no message
  -- waiting under a nonce that is still to be given out).
  pub run-client_timeout :
      (es : List (Event H)) (out : List (Effect H))
      → lookup n s.messages ≡ some info
      → IsFresh s
      → s.next_nonce + length es < 2 ^ 64
      → run w s (client_timeout no_error n ∷ es) ≡ done (s', out)
      → (rest : List (Effect H)) × (out ≡ call n info.handler timeout_response ∷ rest)
        × (calls n rest ≡ 0)
  run-client_timeout es out known f small e =
      let (out2, h, same) =
        run-cons w s (client_timeout no_error n) es (step-client_timeout w s n known) e in
      (out2, same, run-forget-calls es out2 f known small h)
