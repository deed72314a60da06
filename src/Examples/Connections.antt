-- ===== src/Examples/Connections.antt =====
-- Connections to nodes, tried on two messages.
use bzapi.Base.{ℕ, ◌≡◌, refl, List, [], ◌∷◌, ◌++◌, true, length, some}
use bzapi.Base.Text.{Bytes, codes}
use bzapi.Node
use bzapi.Node.{
  Node, Event, run, connected, Ec, success, async_write, async_connect, async_handshake, async_read,
  max_backoff_time, back_off, next_backoff,
}
use bzapi.Node.Queueing.{run-queue, submissions}

-- A connected node that is writing a message.
abbrev writing : Node ℕ
writing = record {
  state = connected;
  websocket = some 0;
  next_websocket = 1;
  secure = true;
  backoff_time = 0;
  send_queue = (codes "one", 1) ∷ [];
}

abbrev two_events : List (Event ℕ)
two_events = Event.send (codes "two") 2 ∷ Event.written success 1 ∷ []

run-queue_example :
    (left : List (Bytes × ℕ)) × (writing.send_queue ++ submissions two_events
      ≡ left ++ ((codes "two", 2) ∷ []))
    × (length left ≡ 1)
unfolding run Node.step Node.send_message Node.queue_send Node.on_write Node.schedule_send
    Node.do_send Node.on_websocket Node.write_front
run-queue_example =
    run-queue writing two_events (record writing { send_queue = (codes "two", 2) ∷ [] })
      (async_write 0 (codes "two") 2 ∷ Node.callback 1 success ∷ []) refl
