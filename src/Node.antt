-- ===== src/Node.antt =====
-- node/node.cpp: the connection to one node of a swarm, its queue of outgoing messages and its
-- back-off. The strand runs one handler at a time, so each completion handler is a step; what a step
-- starts (a connection, a write, a timer) is an effect. `C` is the type of completion callbacks.
pub mod Backoff
pub mod Handlers
pub mod Queueing
pub mod Lifecycle
use bzapi.Base.{
  ℕ, ◌+◌, ◌*◌, ◌/◌, List, [], ◌∷◌, ◌++◌, Bool, true, false, not, ◌&&◌, Option, none, some,
  if◌then◌else◌, ltb, nat_beq, min, length, ◌==◌, list_eq,
}
use bzapi.Base.Text.{Bytes, codes}
use bzapi.Base.Outcome.{Outcome, done, threw, undefined, ◌>>=◌}

abbrev pub max_backoff_time : ℕ
max_backoff_time = 1024

pub data ConnectState : Type 0 where
  disconnected connecting connected disconnecting : ConnectState

-- The error codes that the completion handlers tell apart.
pub data Ec : Type 0 where
  success closed eof operation_aborted other_error : Ec

-- `websocket` is the connection that the pointer refers to: connections are numbered as they are made,
-- and `next_websocket` is the number of the next one.
pub record Node (C : Type 0) : Type 0 where
  pub state : ConnectState
  pub websocket : Option ℕ
  pub next_websocket : ℕ
  pub secure : Bool
  pub backoff_time : ℕ
  pub send_queue : List (Bytes × C)

-- The calls on a websocket carry its number.
pub data Effect (C : Type 0) : Type 0 where
  async_connect : Effect C
  async_handshake : ℕ → Bool → Effect C
  async_read async_close : ℕ → Effect C
  async_write : ℕ → Bytes → C → Effect C
  backoff_wait : ℕ → Effect C
  callback : C → Ec → Effect C

-- `initialize_ssl_context`: the value of WSS_ENABLED, if it is set.
initialize_ssl_context : Option Bytes → Bool
initialize_ssl_context none = false
initialize_ssl_context (some value) = not (value == codes "0")

unfoldable new_node : {C : Type 0} → Option Bytes → Node C
unfolding initialize_ssl_context
new_node wss_enabled = record {
  state = disconnected;
  websocket = none;
  next_websocket = 0;
  secure = initialize_ssl_context wss_enabled;
  backoff_time = 0;
  send_queue = [];
}

abbrev pub Step : Type 0 → Type 0
Step C = Outcome (Node C × List (Effect C))

-- Effects that come after those of a part.
abbrev pub also :
    {C : Type 0} → List (Effect C) → Node C × List (Effect C) → Node C × List (Effect C)
also tail (n, out) = (n, out ++ tail)

abbrev pub after :
    {C : Type 0} → List (Effect C) → Node C × List (Effect C) → Node C × List (Effect C)
after first (n, out) = (n, first ++ out)

pub next_backoff : Bool → ℕ → ℕ
next_backoff true t = min (if nat_beq t 0 then 1 else 2 * t) max_backoff_time
next_backoff false t = if ltb 1 t then t / 2 else 0

module _ {C : Type 0} where
  pub back_off : Bool → Node C → Node C
  unfolding next_backoff
  back_off value n = record n { backoff_time = next_backoff value n.backoff_time }

  unfoldable pub queue_send : Bytes → C → Node C → Node C
  queue_send msg cb n = record n { send_queue = n.send_queue ++ ((msg, cb) ∷ []) }

  -- A call on the websocket, where there is one; a null pointer is followed otherwise.
  unfoldable pub on_websocket : (ℕ → Effect C) → Node C → Step C
  on_websocket action n = elim n.websocket [ none ↦ undefined | some ws ↦ done (n, action ws ∷ []) ]

  -- `front()` of an empty queue is undefined.
  unfoldable pub write_front : List (Bytes × C) → Node C → Step C
  unfolding on_websocket
  write_front [] n = undefined
  write_front ((msg, cb) ∷ rest) n = on_websocket (λ ws. async_write ws msg cb) n

  unfoldable pub do_send : Node C → Step C
  unfolding write_front
  do_send n = write_front n.send_queue n

  unfoldable pub schedule_send : Node C → Step C
  unfolding do_send
  schedule_send n =
      if nat_beq n.backoff_time 0 then do_send n else done (n, backoff_wait n.backoff_time ∷ [])

  -- The two assertions of `connect`.
  pub connect : Node C → Step C
  connect n = elim n.state [
    | connecting ↦ undefined
    | connected ↦ undefined
    | disconnected ↦ done (record n { state = connecting }, async_connect ∷ [])
    | disconnecting ↦ done (record n { state = connecting }, async_connect ∷ [])
  ]

  -- `schedule_send` if something is queued.
  send_rest : List (Bytes × C) → Node C → Step C
  unfolding schedule_send
  send_rest [] n = done (n, [])
  send_rest (m ∷ rest) n = schedule_send n

  -- The rest of `send_message`, by the state of the connection.
  pub send_queued : ConnectState → Node C → Step C
  unfolding connect schedule_send
  send_queued connected n =
      if nat_beq (length n.send_queue) 1 then schedule_send n else done (n, [])
  send_queued connecting n = done (n, [])
  send_queued disconnected n = connect n
  send_queued disconnecting n = connect n

  unfoldable pub send_message : Bytes → C → Node C → Step C
  unfolding queue_send send_queued
  send_message msg cb n = send_queued n.state (queue_send msg cb n)

  -- The handler of `async_connect`.
  pub on_connect : Ec → Node C → Step C
  on_connect success n = done (
    record n { websocket = some n.next_websocket; next_websocket = n.next_websocket + 1 },
    async_handshake n.next_websocket n.secure ∷ [],
  )
  on_connect _ n = done (record n { state = disconnected }, [])

  -- `receive`: a read of the websocket that there is then.
  pub receive : Node C → Step C
  unfolding on_websocket
  receive n = on_websocket async_read n

  -- One part after another.
  abbrev pub and_then : Node C × List (Effect C) → (Node C → Step C) → Step C
  and_then (n, out) part = do r ← part n; done (after out r)

  -- The handler of `async_handshake`, which starts to read at its end.
  pub on_handshake : Ec → Node C → Step C
  unfolding send_rest receive
  on_handshake success n = do
    r ← send_rest n.send_queue (record n { state = connected })
    and_then r receive
  on_handshake _ n = done (record n { state = disconnected }, [])

  reconnect : Node C → Step C
  unfolding connect
  reconnect n = connect (record n { state = disconnected })

  -- `pop_front()` of an empty queue is undefined.
  pub sent : Ec → C → List (Bytes × C) → Node C → Step C
  unfolding send_rest
  sent ec cb [] n = undefined
  sent ec cb (m ∷ rest) n = do
    r ← send_rest rest (record n { send_queue = rest })
    done (also (callback cb ec ∷ []) r)

  -- The handler of `async_write`, with the callback of the message that was written.
  unfoldable pub on_write : Ec → C → Node C → Step C
  unfolding reconnect sent
  on_write closed cb n = reconnect n
  on_write eof cb n = reconnect n
  on_write operation_aborted cb n = reconnect n
  on_write success cb n = sent success cb n.send_queue n
  on_write other_error cb n = sent other_error cb n.send_queue n

  -- The handler of the back-off timer.
  pub on_backoff : Ec → Node C → Step C
  unfolding do_send
  on_backoff success n = do_send n
  on_backoff _ n = done (n, [])

  -- `is_open` is what the websocket says.
  pub close : Bool → Node C → Step C
  close is_open n = elim n.websocket [
    | none ↦ done (record n { state = disconnected }, [])
    | some ws ↦
        if is_open
        then elim n.state [
          | disconnecting ↦ done (n, [])
          | disconnected ↦ done (record n { state = disconnecting }, async_close ws ∷ [])
          | connecting ↦ done (record n { state = disconnecting }, async_close ws ∷ [])
          | connected ↦ done (record n { state = disconnecting }, async_close ws ∷ [])
        ]
        else done (record n { state = disconnected }, [])
  ]

  -- The handler of `async_read`. The message handler says whether to close; what it throws is
  -- caught, and then neither `close` nor `receive` is called.
  unfoldable pub on_read : Ec → Bool → Outcome Bool → Node C → Step C
  unfolding close receive
  on_read success is_open (done true) n = close is_open n
  on_read success is_open (done false) n = receive n
  on_read success is_open threw n = done (n, [])
  on_read success is_open undefined n = undefined
  on_read _ is_open handled n = close is_open n

  -- The handler of `async_close`.
  on_close : Node C → Node C
  on_close n = record n { state = disconnected }

-- What happens to a node: calls of its owner, and completions.
pub data Event (C : Type 0) : Type 0 where
  send : Bytes → C → Event C
  backs_off : Bool → Event C
  connected_event handshaken waited : Ec → Event C
  written : Ec → C → Event C
  received : Ec → Bool → Outcome Bool → Event C
  closed_event : Event C

module _ {C : Type 0} where
  unfoldable pub step : Node C → Event C → Step C
  unfolding send_message back_off on_connect on_handshake on_backoff on_write on_read on_close
  step n (send msg cb) = send_message msg cb n
  step n (backs_off value) = done (back_off value n, [])
  step n (connected_event ec) = on_connect ec n
  step n (handshaken ec) = on_handshake ec n
  step n (waited ec) = on_backoff ec n
  step n (written ec cb) = on_write ec cb n
  step n (received ec is_open handled) = on_read ec is_open handled n
  step n closed_event = done (on_close n, [])

  unfoldable pub run : Node C → List (Event C) → Step C
  unfolding step
  run n [] = done (n, [])
  run n (e ∷ es) = do r ← step n e; rest ← run r.0 es; done (after r.1 rest)
