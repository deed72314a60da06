-- ===== src/Dispatch/Run.antt =====
-- The dispatcher as a machine that is driven by its callers, the swarms and the timers.
pub mod Once
pub mod GivenUp
pub mod Duplicate
pub mod Soundness
pub mod Honest
pub mod Keeps
pub mod Trusted
use bzapi.Base.{ℕ, List, [], ◌∷◌, ◌++◌, Bool}
use bzapi.Base.Text.{Bytes}
use bzapi.Base.Outcome.{Outcome, done, ◌>>=◌}
use bzapi.Messages.{Envelope, DatabaseMsg, SendPolicy, Wire}
use bzapi.Dispatch.{Dispatch, Effect, SwarmBase, ErrorCode, send_message_to_swarm}
use bzapi.Dispatch.Handlers.{
  outcome, handle_request_timeout, handle_client_timeout, handle_swarm_error, handle_swarm_response,
}

-- What reaches the dispatcher: a caller's request, a message of a swarm, a timer.
pub data Event (H : Type 0) : Type 0 where
  send : ℕ → SwarmBase → Bytes → DatabaseMsg → SendPolicy → H → Event H
  response error : Envelope → Event H
  retry_timeout client_timeout : ErrorCode → ℕ → Event H

abbrev pub prepend :
    {H : Type 0} → List (Effect H) → Dispatch H × List (Effect H) → Dispatch H × List (Effect H)
prepend out (s, rest) = (s, out ++ rest)

module _ (w : Wire) {H : Type 0} where
  unfoldable pub step : Dispatch H → Event H → Outcome (Dispatch H × List (Effect H))
  step s (send timeout swarm db_uuid msg policy handler) =
      done (send_message_to_swarm w timeout swarm db_uuid msg policy handler s)
  step s (response env) = outcome (handle_swarm_response w env s)
  step s (error env) = outcome (handle_swarm_error w env s)
  step s (retry_timeout ec nonce) = outcome (handle_request_timeout ec nonce s)
  step s (client_timeout ec nonce) = done (handle_client_timeout ec nonce s)

  -- All effects of a history, in order.
  unfoldable pub run : Dispatch H → List (Event H) → Outcome (Dispatch H × List (Effect H))
  run s [] = done (s, [])
  run s (e ∷ es) = do (s', out) ← step s e; r ← run s' es; done (prepend out r)
