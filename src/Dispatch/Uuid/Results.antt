-- ===== src/Dispatch/Uuid/Results.antt =====
-- What the callbacks of `has_uuid` and `create_uuid` are told.
use bzapi.Base.{
  ℕ, ◌≡◌, ◌↔◌, refl, ap, [], ◌∷◌, Bool, true, false, ◌==◌, list_eq, eq_iff, eq_refl, arith,
  Bool-cases, inl, inr,
}
use bzapi.Base.Text.{Bytes}
use bzapi.Messages.{Answer, DatabaseResponse, Header, success, database_error, Wire}
use bzapi.Dispatch.{Dispatch, SwarmBase, call, no_error}
use bzapi.Dispatch.Handlers.{handle_client_timeout, timeout_response}
use bzapi.Dispatch.Handlers.Timers.{client_timeout-send}
use bzapi.Dispatch.Uuid.{UuidHandler, has_uuid_result, create_uuid_result, has_uuid, create_uuid}

answered :
    (db_uuid : Bytes) (header : Header) (a : Answer)
    → (has_uuid_result db_uuid (record { header = header; answer = a }) false ≡ success)
      ↔ (a ≡ Answer.has_db db_uuid true)
unfolding has_uuid_result
answered db_uuid header (Answer.has_db uuid true) = elim (Bool-cases (uuid == db_uuid)) [
  | inl same_uuid ↦
      (λ e. let u = (eq_iff uuid db_uuid).0 same_uuid in rw u refl, λ e. rw same_uuid refl)
  | inr other ↦
      (λ e. absurd (ground (arith, other)), λ e. absurd (ground (arith, other, eq_refl db_uuid)))
]
answered db_uuid header (Answer.has_db uuid false) = (λ e. ground arith, λ e. ground arith)
answered db_uuid header a = (λ e. ground arith, λ e. ground arith)

-- `has_uuid` tells its callback success exactly when the call did not fail and the answer says that
-- the swarm has a database of this very uuid.
pub has_uuid_result-success_iff :
    (db_uuid : Bytes) (r : DatabaseResponse) (failed : Bool)
    → (has_uuid_result db_uuid r failed ≡ success)
      ↔ ((failed ≡ false) × (r.answer ≡ Answer.has_db db_uuid true))
unfolding has_uuid_result
has_uuid_result-success_iff db_uuid r true = (λ e. ground arith, λ h. ground (arith, h.0))
has_uuid_result-success_iff db_uuid r false =
    let (there, back) = answered db_uuid r.header r.answer in (λ e. (refl, there e), λ h. back h.1)

-- When the client's timeout of a `has_uuid` or a `create_uuid` comes, its handler is called, once,
-- and tells its callback that there was a database error.
pub uuid-timeout :
    (w : Wire) (timeout : ℕ) (swarm : SwarmBase) (db_uuid : Bytes) (max_size : ℕ)
    (random_evict : Bool) (callback : ℕ) (s : Dispatch UuidHandler)
    → (h : UuidHandler) × (h' : UuidHandler) × ((handle_client_timeout no_error s.next_nonce
          (has_uuid w timeout swarm db_uuid callback s).0).1
        ≡ call s.next_nonce h timeout_response ∷ [])
      × (h.callback ≡ callback)
      × (h.result timeout_response false ≡ database_error)
      × ((handle_client_timeout no_error s.next_nonce
            (create_uuid w timeout swarm db_uuid max_size random_evict callback s).0).1
          ≡ call s.next_nonce h' timeout_response ∷ [])
      × (h'.callback ≡ callback)
      × (h'.result timeout_response false ≡ database_error)
unfolding has_uuid create_uuid has_uuid_result create_uuid_result
uuid-timeout w timeout swarm db_uuid max_size random_evict callback s = (
  record { callback = callback; result = has_uuid_result db_uuid },
  record { callback = callback; result = create_uuid_result },
  ap (λ r. r.1) (client_timeout-send w timeout swarm db_uuid _ _ _ s),
  refl,
  refl,
  ap (λ r. r.1) (client_timeout-send w timeout swarm db_uuid _ _ _ s),
  refl,
  refl,
)
