-- ===== src/Response.antt =====
-- library/udp_response.hpp: the object through which a caller learns the outcome of a request. The
-- datagrams that it sends, the promise and the future are part of its state; `D` is the type of
-- databases. The lock makes `set_signal_id` and `signal` atomic; it covers neither the promise nor
-- `get_error`, so that `set_error` is two steps.
pub mod Signals
use bzapi.Base.{
  ℕ, ◌%◌, ◌^◌, List, [], ◌∷◌, ◌++◌, Bool, true, false, Option, none, some, if◌then◌else◌, nat_beq,
}
use bzapi.Base.Text.{Bytes, codes}
use bzapi.Base.Outcome.{Outcome, done, threw, undefined, ◌>>=◌}

abbrev pub error_result : Bytes
error_result = codes "{ error: \"An exception occurred getting result\""

-- `promise` is the value that was set; `sent` lists the datagrams (port, value), oldest first.
pub record Response (D : Type 0) : Type 0 where
  pub my_id : ℕ
  pub their_id : ℕ
  pub result_str : Bytes
  pub db : Option D
  pub error_val : ℕ
  pub deferred_signal : Bool
  pub promise : Option ℕ
  pub future_taken : Bool
  pub sent : List (ℕ × ℕ)

-- A new object, bound to a local port.
abbrev pub new_response : {D : Type 0} → ℕ → Response D
new_response port = record {
  my_id = port;
  their_id = 0;
  result_str = [];
  db = none;
  error_val = 0;
  deferred_signal = false;
  promise = none;
  future_taken = false;
  sent = [];
}

-- What `get_result` comes to: it waits, or it returns a text.
pub data Got : Type 0 where
  waits : Got
  returns : Bytes → Got

-- `get_future().get()`, for a future that was not taken yet.
await : Option ℕ → Bytes → Got
await none result = waits
await (some v) result = returns result

module _ {D : Type 0} where
  -- A port is a `uint16_t`.
  send_signal : Response D → Outcome (Response D)
  send_signal r =
      if nat_beq r.their_id 0
      then undefined
      else done (record r { sent = r.sent ++ ((r.their_id % 2 ^ 16, r.error_val) ∷ []) })

  undefer : Response D → Response D
  undefer r = record r { deferred_signal = false }

  pub set_signal_id : ℕ → Response D → Outcome (Response D × ℕ)
  unfolding send_signal undefer
  set_signal_id signal_id r =
      let r' = record r { their_id = signal_id } in
      if r'.deferred_signal
      then (send_signal r' >>= λ s. done (undefer s, s.my_id))
      else done (r', r'.my_id)

  pub signal : ℕ → Response D → Outcome (Response D)
  unfolding send_signal
  signal error r =
      let r' = record r { error_val = error } in
      if nat_beq r'.their_id 0 then done (record r' { deferred_signal = true }) else send_signal r'

  unfoldable pub set_result : Bytes → Response D → Response D
  set_result result r = record r { result_str = result }

  set_promise : ℕ → Option ℕ → Response D → Outcome (Response D)
  set_promise error none r = done (record r { promise = some error })
  set_promise error (some v) r = threw

  -- The promise gets its value. From here on a caller that waits can go on, and read the error before
  -- `signal` has set it.
  unfoldable pub set_value : ℕ → Response D → Outcome (Response D)
  unfolding set_promise
  set_value error r = set_promise error r.promise r

  unfoldable pub set_error : ℕ → Response D → Outcome (Response D)
  unfolding set_value signal
  set_error error r = set_value error r >>= signal error

  unfoldable set_ready : Response D → Outcome (Response D)
  unfolding set_error
  set_ready = set_error 0

  unfoldable pub get_error : Response D → ℕ
  get_error r = r.error_val

  -- The future can be taken once; the exception of a second time is caught.
  unfoldable pub get_result : Response D → Response D × Got
  unfolding await
  get_result r =
      if r.future_taken
      then (r, returns error_result)
      else (record r { future_taken = true }, await r.promise r.result_str)

  unfoldable set_db : Option D → Response D → Response D
  set_db db_ptr r = record r { db = db_ptr }

  unfoldable pub get_db : Response D → Option D
  get_db r = r.db
