-- ===== src/Dispatch/Handlers/Steps.antt =====
-- database/db_dispatch.cpp: each handler is one of these changes.
use bzapi.Base.{
  ℕ, ◌≤◌, ◌≡◌, sym, ◌≢◌, refl, subst, [], Bool, true, false, not, ◌&&◌, Option, none, some, ◌==◌,
  nat_eq, list_eq,
}
use bzapi.Base.Text.{Bytes, is_empty}
use bzapi.Base.Map.{lookup, insert, length-insert-pos}
use bzapi.Base.Outcome.{Outcome, done, threw, undefined, ◌>>=◌}
use bzapi.Messages.{
  Envelope, DatabaseResponse, SwarmError, Wire, timestamp_error_msg, too_large_error_msg,
  too_busy_error_msg, duplicate_error_msg,
}
use bzapi.Dispatch.{
  Dispatch, MsgInfo, Timer, ErrorCode, no_error, operation_aborted, other_error,
  database_response_of, swarm_error_of, has_quick_read,
}
use bzapi.Dispatch.Qualify.{qualify_response-single, votes}
use bzapi.Dispatch.Quorum.{at-insert, qualify_response-votes}
use bzapi.Dispatch.Handlers.{
  forget, rearm, retry_message, handle_request_timeout, give_up, handle_client_timeout,
  cancel_retry, error_message, error_data, handle_swarm_error, deliver, collect,
  handle_swarm_response, timeout_response,
}
use bzapi.Dispatch.Handlers.Change.{
  Cause, nothing, timed_out, ResponseOf, received, timer_set, collected, Change, same, stored,
  dropped, answered, Ensures, Ensures-done, Ensures-undefined, Ensures-if,
}

module _ {H : Type 0} (s : Dispatch H) where
  rearm-Change :
      (n : ℕ) (info : MsgInfo H) (t : Option Timer)
      → lookup n s.messages ≡ some info
      → Ensures (Change nothing s) (rearm s n info t)
  unfolding rearm
  rearm-Change n info none e = Ensures-undefined
  rearm-Change n info (some t) e =
      Ensures-done _ _ _ (stored n info _ e (timer_set refl refl refl) (λ m. refl))

  retry_message-Change :
      (n : ℕ) (o : Option (MsgInfo H))
      → lookup n s.messages ≡ o
      → Ensures (Change nothing s) (retry_message s n o)
  unfolding retry_message
  retry_message-Change n none e = Ensures-done _ _ _ (same (λ m. refl))
  retry_message-Change n (some info) e = rearm-Change n info info.retry_timer e

  pub handle_request_timeout-Change :
      (ec : ErrorCode) (n : ℕ) → Ensures (Change nothing s) (handle_request_timeout ec n s)
  unfolding handle_request_timeout
  handle_request_timeout-Change operation_aborted n = Ensures-done _ _ _ (same (λ m. refl))
  handle_request_timeout-Change other_error n = Ensures-done _ _ _ (same (λ m. refl))
  handle_request_timeout-Change no_error n = retry_message-Change n _ refl

  give_up-Change :
      (n : ℕ) (o : Option (MsgInfo H))
      → lookup n s.messages ≡ o
      → Change timed_out s (give_up s n o).0 (give_up s n o).1
  unfolding give_up
  give_up-Change n none e = same (λ m. refl)
  give_up-Change n (some info) e = answered n info timeout_response e refl

  pub handle_client_timeout-Change :
      (ec : ErrorCode) (n : ℕ)
      → Change timed_out s (handle_client_timeout ec n s).0 (handle_client_timeout ec n s).1
  unfolding handle_client_timeout
  handle_client_timeout-Change no_error n = give_up-Change n _ refl
  handle_client_timeout-Change operation_aborted n = same (λ m. refl)
  handle_client_timeout-Change other_error n = same (λ m. refl)

  cancel_retry-Change :
      (n : ℕ) (info : MsgInfo H) (t : Option Timer)
      → lookup n s.messages ≡ some info
      → Ensures (Change nothing s) (cancel_retry s n info t)
  unfolding cancel_retry
  cancel_retry-Change n info none e = Ensures-undefined
  cancel_retry-Change n info (some t) e =
      Ensures-done _ _ _ (stored n info _ e (timer_set refl refl refl) (λ m. refl))

  unchanged : {R : Type 0} {c : Cause H} (r : R) → Ensures (Change c s) (done (s, [], r))
  unchanged r = Ensures-done _ _ _ (same (λ m. refl))

  drops :
      (n : ℕ) (info : MsgInfo H)
      → lookup n s.messages ≡ some info
      → Ensures (Change nothing s) (done (forget s n, [], false))
  drops n info e = Ensures-done _ _ _ (dropped n info e (λ m. refl))

  error_message-Change :
      (n : ℕ) (message : Bytes) (o : Option (MsgInfo H))
      → lookup n s.messages ≡ o
      → Ensures (Change nothing s) (error_message s n message o)
  unfolding error_message
  error_message-Change n message none e = Ensures-done _ _ _ (same (λ m. refl))
  error_message-Change n message (some info) e =
      Ensures-if (message == timestamp_error_msg) _ _ (drops n info e) (
        Ensures-if (message == too_large_error_msg) _ _ (drops n info e) (
          Ensures-if (message == too_busy_error_msg) _ _ (unchanged false) (
            Ensures-if (message == duplicate_error_msg) _ _
              (cancel_retry-Change n info info.retry_timer e) (unchanged false))))

  error_data-Change : (err : Option SwarmError) → Ensures (Change nothing s) (error_data s err)
  unfolding error_data
  error_data-Change none = unchanged true
  error_data-Change (some err) =
      Ensures-if _ _ _ (unchanged true) (error_message-Change _ err.message _ refl)

module _ (w : Wire) {H : Type 0} (s : Dispatch H) where
  qualified-Change :
      (env : Envelope) (n : ℕ) (r : DatabaseResponse) (old : MsgInfo H) (q : Outcome Bool)
      → lookup n s.messages ≡ some old
      → ResponseOf w env n r
      → (q ≡ done false → old.responses_required ≢ 1)
      → (q ≡ done true → old.responses_required ≤ votes w r (insert env.sender r old.responses))
      → (let info = record old { responses = insert env.sender r old.responses } in
          Ensures (Change (received w env) s) (q >>= λ b. done (deliver s n env.sender info b)))
  unfolding deliver
  qualified-Change env n r old (done true) e holds h votes = Ensures-done _ _ _ (
      answered n old _ e (
        subst ((received w env).Answers n old) (sym (at-insert w env.sender r old.responses))
          (holds, votes refl)))
  qualified-Change env n r old (done false) e holds h votes =
      Ensures-done _ _ _ (
        stored n old _ e (collected env.sender r refl refl refl (holds, refl) (h refl)) (λ m. refl))
  qualified-Change env n r old threw e holds h votes = record { held = tt }
  qualified-Change env n r old undefined e holds h votes = record { held = tt }

  collect-Change :
      (env : Envelope) (n : ℕ) (unsigned : Bool) (r : DatabaseResponse) (o : Option (MsgInfo H))
      → lookup n s.messages ≡ o
      → ResponseOf w env n r
      → Ensures (Change (received w env) s) (collect w s n env.sender unsigned r o)
  unfolding collect
  collect-Change env n unsigned r none e holds = unchanged s false
  collect-Change env n unsigned r (some info) e holds =
      Ensures-if (not (has_quick_read r.answer) && unsigned) _ _ (unchanged s false) (
        qualified-Change env n r info _ e holds
          (qualify_response-single w _ env.sender (length-insert-pos env.sender r info.responses))
          (qualify_response-votes w info env.sender r))

  pub handle_swarm_response-Change :
      (env : Envelope) → Ensures (Change (received w env) s) (handle_swarm_response w env s)
  unfolding handle_swarm_response
  handle_swarm_response-Change env =
      parsed (w.parse_response (database_response_of env.payload)) refl
    where
      parsed :
          (o : Option DatabaseResponse)
          → w.parse_response (database_response_of env.payload) ≡ o
          → Ensures (Change (received w env) s) (elim o [
            | none ↦ done (s, [], true)
            | some r ↦
                collect w s r.header.nonce env.sender
                  (is_empty env.signature)
                  r
                  (lookup r.header.nonce s.messages)
          ])
      parsed none e = unchanged s true
      parsed (some r) e = collect-Change env r.header.nonce _ r _ refl (e, refl)

  pub handle_swarm_error-Change :
      (env : Envelope) → Ensures (Change nothing s) (handle_swarm_error w env s)
  unfolding handle_swarm_error
  handle_swarm_error-Change env = error_data-Change s (w.parse_error (swarm_error_of env.payload))
