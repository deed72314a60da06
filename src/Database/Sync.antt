-- ===== src/Database/Sync.antt =====
-- database/database_impl.cpp: each operation calls the asynchronous one and waits for its response.
-- An operation is a `Call` and, from the response that the call returned, what `get_result` gives;
-- `swarm_status` is in Database/Status.
use bzapi.Base.{ℕ, ◌≡◌, refl, ap, ◌∙◌, false, Option}
use bzapi.Base.Text.{Bytes}
use bzapi.Base.Outcome.{done}
use bzapi.Messages.{DatabaseResponse}
use bzapi.Response.{Response, Got, returns, get_result}
use bzapi.Response.Signals.{IsUnsettled}
use bzapi.Database.{Call, Object, complete}
use bzapi.Database.Operations
use bzapi.Database.Replies.{Operation, call_of, get-complete}

module _ {D : Type 0} where
  abbrev pub waiting : Call → Response D → Call × Got
  waiting call r = (call, (get_result r).1)

  unfoldable pub create : Bytes → Bytes → ℕ → Response D → Call × Got
  unfolding Operations.create
  create key value expiry = waiting (Operations.create key value expiry)

  unfoldable pub read : Bytes → Response D → Call × Got
  unfolding Operations.read
  read key = waiting (Operations.read key)

  unfoldable pub update : Bytes → Bytes → Response D → Call × Got
  unfolding Operations.update
  update key value = waiting (Operations.update key value)

  unfoldable pub remove : Bytes → Response D → Call × Got
  unfolding Operations.remove
  remove key = waiting (Operations.remove key)

  unfoldable pub quick_read : Bytes → Response D → Call × Got
  unfolding Operations.quick_read
  quick_read key = waiting (Operations.quick_read key)

  unfoldable pub has : Bytes → Response D → Call × Got
  unfolding Operations.has
  has key = waiting (Operations.has key)

  unfoldable pub keys : Response D → Call × Got
  unfolding Operations.keys
  keys = waiting Operations.keys

  unfoldable pub size : Response D → Call × Got
  unfolding Operations.size
  size = waiting Operations.size

  unfoldable pub expire : Bytes → ℕ → Response D → Call × Got
  unfolding Operations.expire
  expire key expiry = waiting (Operations.expire key expiry)

  unfoldable pub persist : Bytes → Response D → Call × Got
  unfolding Operations.persist
  persist key = waiting (Operations.persist key)

  unfoldable pub ttl : Bytes → Response D → Call × Got
  unfolding Operations.ttl
  ttl key = waiting (Operations.ttl key)

  unfoldable pub writers : Response D → Call × Got
  unfolding Operations.writers
  writers = waiting Operations.writers

  unfoldable pub add_writer : Bytes → Response D → Call × Got
  unfolding Operations.add_writer
  add_writer writer = waiting (Operations.add_writer writer)

  unfoldable pub remove_writer : Bytes → Response D → Call × Got
  unfolding Operations.remove_writer
  remove_writer writer = waiting (Operations.remove_writer writer)

  pub sync_of : Operation → Response D → Call × Got
  unfolding create read update remove quick_read has keys size expire persist ttl writers add_writer
      remove_writer
  sync_of (Operation.create key value expiry) = create key value expiry
  sync_of (Operation.read key) = read key
  sync_of (Operation.update key value) = update key value
  sync_of (Operation.remove key) = remove key
  sync_of (Operation.quick_read key) = quick_read key
  sync_of (Operation.has key) = has key
  sync_of Operation.keys = keys
  sync_of Operation.size = size
  sync_of (Operation.expire key expiry) = expire key expiry
  sync_of (Operation.persist key) = persist key
  sync_of (Operation.ttl key) = ttl key
  sync_of Operation.writers = writers
  sync_of (Operation.add_writer writer) = add_writer writer
  sync_of (Operation.remove_writer writer) = remove_writer writer

  -- On a response that is neither settled nor read: a synchronous operation asks for what the
  -- asynchronous one asks for; once that one's reply has completed the response, it returns the text of
  -- the completion.
  pub sync_of-complete :
      (styled : Object → Bytes) (op : Operation) (answer : DatabaseResponse) (ec : Option Bytes)
      (r : Response D)
      → IsUnsettled r
      → r.future_taken ≡ false
      → (r1 : Response D) × (complete styled ((call_of op).reply answer ec) r ≡ done r1)
        × (sync_of op r1 ≡ (call_of op, returns (styled ((call_of op).reply answer ec).result)))
  unfolding sync_of call_of
  sync_of-complete styled op answer ec r unsettled fresh =
      let (r1, e, got, err) =
        get-complete styled ((call_of op).reply answer ec) r unsettled fresh in
      (r1, e, sync_of-waiting op r1 ∙ ap (λ g. (call_of op, g)) got)
    where
      sync_of-waiting : (op : Operation) (r1 : Response D) → sync_of op r1 ≡ waiting (call_of op) r1
      sync_of-waiting (Operation.create key value expiry) r1 = refl
      sync_of-waiting (Operation.read key) r1 = refl
      sync_of-waiting (Operation.update key value) r1 = refl
      sync_of-waiting (Operation.remove key) r1 = refl
      sync_of-waiting (Operation.quick_read key) r1 = refl
      sync_of-waiting (Operation.has key) r1 = refl
      sync_of-waiting Operation.keys r1 = refl
      sync_of-waiting Operation.size r1 = refl
      sync_of-waiting (Operation.expire key expiry) r1 = refl
      sync_of-waiting (Operation.persist key) r1 = refl
      sync_of-waiting (Operation.ttl key) r1 = refl
      sync_of-waiting Operation.writers r1 = refl
      sync_of-waiting (Operation.add_writer writer) r1 = refl
      sync_of-waiting (Operation.remove_writer writer) r1 = refl
