-- ===== src/Dispatch/Handlers/Errors.antt =====
-- `handle_swarm_error`, by the text of the error.
use bzapi.Base.{ℕ, ◌≡◌, ◌≢◌, ◌⊎◌, inl, inr, [], none, some, false, arith, nat_eq, list_eq, list_beq}
use bzapi.Base.Text.{Bytes}
use bzapi.Base.Map.{lookup}
use bzapi.Base.Decimal.{stoull}
use bzapi.Base.Outcome.{done, undefined}
use bzapi.Messages.{
  Envelope, SwarmError, Wire, timestamp_error_msg, too_large_error_msg, duplicate_error_msg,
}
use bzapi.Dispatch.{Dispatch, MsgInfo, swarm_error_of, cancelled}
use bzapi.Dispatch.Handlers.{store, forget, handle_swarm_error, error_data, error_message}

-- An error message of a swarm about the waiting message `n`.
pub record Reports (w : Wire) {H : Type 0} (s : Dispatch H) (env : Envelope) (err : SwarmError)
    (n : ℕ) (info : MsgInfo H) : Type 0 where
  pub parsed : w.parse_error (swarm_error_of env.payload) ≡ some err
  pub about : stoull err.error_data ≡ some n
  pub nonzero : n ≢ 0
  pub known : lookup n s.messages ≡ some info

abbrev pub IsFatal : Bytes → Type 0
IsFatal message = (message ≡ timestamp_error_msg) ⊎ (message ≡ too_large_error_msg)

module _ (w : Wire) {H : Type 0} {s : Dispatch H} {env : Envelope} {err : SwarmError} {n : ℕ}
    {info : MsgInfo H} (reports : Reports w s env err n info) where
  handled : handle_swarm_error w env s ≡ error_message s n err.message (some info)
  unfolding handle_swarm_error
  handled = rw (reports.parsed, error_data, reports.about) (rw reports.known (ground arith))

  -- A request that is out of its time window or too large is forgotten, and nobody is called.
  pub handle_swarm_error-fatal :
      IsFatal err.message → handle_swarm_error w env s ≡ done (forget s n, [], false)
  unfolding error_message list_beq
  handle_swarm_error-fatal (inl e) = rw (handled, e)
  handle_swarm_error-fatal (inr e) = rw (handled, e)

  pub handle_swarm_error-duplicate :
      err.message ≡ duplicate_error_msg
      → handle_swarm_error w env s ≡ elim info.retry_timer [
        | none ↦ undefined
        | some t ↦ done (store s n (record info { retry_timer = some cancelled }), [], false)
      ]
  unfolding error_message list_beq
  handle_swarm_error-duplicate e = rw (handled, e) (ground arith)
