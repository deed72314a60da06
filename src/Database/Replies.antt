-- ===== src/Database/Replies.antt =====
-- What the operations report, for every answer that may come.
use bzapi.Base.{ℕ, ◌≡◌, refl, Bool, true, false, none, some, arith, if◌then◌else◌}
use bzapi.Base.Text.{Bytes}
use bzapi.Base.Outcome.{done}
use bzapi.Messages.{Answer, DatabaseResponse, normal, connection_error}
use bzapi.Response.{Response, returns, get_result, get_error, set_error, set_value, set_result}
use bzapi.Response.Signals.{IsUnsettled}
use bzapi.Database.{Object, Completion, Call, failed, complete, released}
use bzapi.Database.Operations
use bzapi.Database.Operations.{key_value, quick_read_reply}

-- The operations, with their arguments.
pub data Operation : Type 0 where
  create : Bytes → Bytes → ℕ → Operation
  read remove quick_read has persist ttl add_writer remove_writer : Bytes → Operation
  update : Bytes → Bytes → Operation
  keys size writers : Operation
  expire : Bytes → ℕ → Operation

unfoldable pub call_of : Operation → Call
unfolding Operations.create Operations.read Operations.update Operations.remove
    Operations.quick_read Operations.has Operations.keys Operations.size Operations.expire
    Operations.persist Operations.ttl Operations.writers Operations.add_writer
    Operations.remove_writer
call_of (create key value expiry) = Operations.create key value expiry
call_of (read key) = Operations.read key
call_of (update key value) = Operations.update key value
call_of (remove key) = Operations.remove key
call_of (quick_read key) = Operations.quick_read key
call_of (has key) = Operations.has key
call_of keys = Operations.keys
call_of size = Operations.size
call_of (expire key expiry) = Operations.expire key expiry
call_of (persist key) = Operations.persist key
call_of (ttl key) = Operations.ttl key
call_of writers = Operations.writers
call_of (add_writer writer) = Operations.add_writer writer
call_of (remove_writer writer) = Operations.remove_writer writer

abbrev pub is_quick_read : Operation → Bool
is_quick_read (quick_read key) = true
is_quick_read _ = false

abbrev pub is_error : Answer → Bool
is_error (Answer.error m) = true
is_error _ = false

-- Every operation but quick_read waits for a quorum (policy normal). It reports a database error
-- when the answer is an error; any other answer, of whatever type, counts as success.
pub call_of-reply :
    (op : Operation) (r : DatabaseResponse)
    → is_quick_read op ≡ false
    → ((call_of op).policy ≡ normal)
      × (((call_of op).reply r none).error ≡ (if is_error r.answer then 3 else 0))
unfolding call_of
call_of-reply (quick_read key) r h = absurd (ground arith)
call_of-reply op r h = (refl, ground arith)

-- A failed transport is reported as such by every operation.
pub call_of-connection_error :
    (op : Operation) (r : DatabaseResponse) (m : Bytes)
    → (call_of op).reply r (some m) ≡ failed m connection_error
unfolding call_of
call_of-connection_error (quick_read key) r m = refl
call_of-connection_error op r m = refl

-- Once an unsettled response is completed, its caller reads the completion's result and error.
pub get-complete :
    {D : Type 0} (styled : Object → Bytes) (c : Completion) (r : Response D)
    → IsUnsettled r
    → r.future_taken ≡ false
    → (r' : Response D) × (complete styled c r ≡ done r')
      × ((get_result r').1 ≡ returns (styled c.result))
      × (get_error r' ≡ c.error)
unfolding complete set_error set_result get_result get_error
get-complete styled c r u fresh = (
  record r {
    result_str = styled c.result;
    error_val = c.error;
    deferred_signal = true;
    promise = some c.error;
  },
  ground arith,
  ground arith,
  refl,
)

-- Once the promise of an unsettled response has its value, its caller can read the completion's
-- result, and as yet the error that the response had.
pub get-released :
    {D : Type 0} (styled : Object → Bytes) (c : Completion) (r : Response D)
    → IsUnsettled r
    → r.future_taken ≡ false
    → (r' : Response D) × (released styled c r ≡ done r')
      × ((get_result r').1 ≡ returns (styled c.result))
      × (get_error r' ≡ get_error r)
unfolding released set_value set_result get_result get_error
get-released styled c r u fresh = (
  record r { result_str = styled c.result; promise = some c.error },
  ground arith,
  ground arith,
  refl,
)
