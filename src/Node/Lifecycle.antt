-- ===== src/Node/Lifecycle.antt =====
-- node/node.cpp: a connection that is lost while a message is being written.
use bzapi.Base.{ℕ, ◌+◌, ◌≡◌, refl, false, some, List, [], ◌∷◌, ◌++◌}
use bzapi.Base.Text.{Bytes}
use bzapi.Base.Outcome.{done, undefined}
use bzapi.Node.{
  Node, success, eof, operation_aborted, connected, on_write, async_write, async_connect,
  on_connect, on_handshake, reconnect, connect, run, step, Event, written, connected_event,
  handshaken, send, received, send_message, write_front, do_send, schedule_send, send_rest,
  async_handshake, async_read, sent, queue_send, send_queued, close, on_read, on_websocket, receive,
}

-- The read sees the end of the connection, the owner sends the next message, and only then the
-- write of the first message is aborted: two connections are made.
abbrev pub lost_connection : {C : Type 0} → Bytes → C → C → List (Event C)
lost_connection next cb next_cb =
    received eof false (done false)
    ∷ send next next_cb
    ∷ written operation_aborted cb
    ∷ connected_event success
    ∷ connected_event success
    ∷ handshaken success
    ∷ handshaken success
    ∷ []

module _ {C : Type 0} where
  -- The effects of `lost_connection` on a node that has a websocket, holds one message and does not
  -- back off. Two connections are started, and two websockets are made; the handlers of both
  -- handshakes use the second one, on which the same message is written twice and two reads are
  -- begun. When both of these writes and the write of the next message end well, the queue is popped
  -- while it is empty.
  pub run-lost_connection :
      (n : Node C) (old : ℕ) (msg next : Bytes) (cb next_cb : C)
      → n.websocket ≡ some old
      → n.send_queue ≡ (msg, cb) ∷ []
      → n.backoff_time ≡ 0
      → (let first = n.next_websocket in
          run n (lost_connection next cb next_cb)
          ≡ done (
            record n {
              state = connected;
              websocket = some (first + 1);
              next_websocket = first + 1 + 1;
              send_queue = (msg, cb) ∷ (next, next_cb) ∷ [];
            },
            async_connect
                ∷ async_connect
                ∷ async_handshake first n.secure
                ∷ async_handshake (first + 1) n.secure
                ∷ async_write (first + 1) msg cb
                ∷ async_read (first + 1)
                ∷ async_write (first + 1) msg cb
                ∷ async_read (first + 1)
                ∷ [],
          ))
        × (run n (
              lost_connection next cb next_cb
              ++ (written success cb ∷ written success cb ∷ written success next_cb ∷ []))
            ≡ undefined)
  unfolding run step on_write on_connect on_handshake reconnect connect send_rest schedule_send
      do_send write_front sent send_message queue_send send_queued close on_read on_websocket
      receive
  run-lost_connection n old msg next cb next_cb there q b =
      (rw (there, q, b) refl, rw (there, q, b) refl)
