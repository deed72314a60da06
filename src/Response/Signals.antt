-- ===== src/Response/Signals.antt =====
-- The signal of a response goes out once, whoever comes first: the caller with its port, or the
-- result.
use bzapi.Base.{ℕ, ◌%◌, ◌^◌, ◌≡◌, ◌≢◌, refl, ◌∷◌, [], ◌++◌, false, none, some, arith}
use bzapi.Base.Outcome.{done, threw, ◌>>=◌}
use bzapi.Response.{
  Response, waits, returns, error_result, set_signal_id, set_error, get_result, get_error,
}

-- Nobody has been signalled, and no outcome is known yet.
pub record IsUnsettled {D : Type 0} (r : Response D) : Type 0 where
  pub no_port : r.their_id ≡ 0
  pub not_deferred : r.deferred_signal ≡ false
  pub no_value : r.promise ≡ none

module _ {D : Type 0} where
  -- Setting the port and setting the outcome commute: both orders are defined and end in one state,
  -- in which one datagram with the outcome was sent to the port (its lower 16 bits).
  pub set_signal_id-set_error_comm :
      (r : Response D) (port error : ℕ)
      → IsUnsettled r
      → port ≢ 0
      → (r' : Response D) × ((set_signal_id port r >>= λ p. set_error error p.0) ≡ done r')
        × ((set_error error r >>= set_signal_id port) ≡ done (r', r.my_id))
        × (r'.sent ≡ r.sent ++ ((port % 2 ^ 16, error) ∷ []))
        × (get_error r' ≡ error)
  unfolding set_signal_id set_error get_error
  set_signal_id-set_error_comm r port error u h = (
    record r {
      their_id = port;
      error_val = error;
      promise = some error;
      sent = r.sent ++ ((port % 2 ^ 16, error) ∷ []);
    },
    ground arith,
    ground arith,
    refl,
    refl,
  )

  -- A second outcome is refused with an exception: the promise keeps the first.
  pub set_error_twice :
      (r r' : Response D) (first second : ℕ)
      → set_error first r ≡ done r'
      → set_error second r' ≡ threw
  unfolding set_error
  set_error_twice r r' first second e = ground arith

  -- The first `get_result` waits for the outcome and then returns the result that was set; any later
  -- one returns the text of an error, without waiting.
  pub get_result_twice :
      (r : Response D)
      → r.future_taken ≡ false
      → (let (r', got) = get_result r in
          (got ≡ elim r.promise [ none ↦ waits | some v ↦ returns r.result_str ])
          × (get_result r' ≡ (r', returns error_result)))
  unfolding get_result
  get_result_twice r e = (ground arith, ground arith)
