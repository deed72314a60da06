-- ===== src/Swarm/Unread.antt =====
-- node/node.cpp with swarm/swarm.cpp: what becomes of a connection whose message does not parse.
use bzapi.Base.{
  ℕ, ◌≡◌, refl, Bool, true, Option, none, some, if◌then◌else◌, ltb, length, Bool-cases, inl, inr,
  [], list_eq, arith,
}
use bzapi.Base.Text.{Bytes}
use bzapi.Base.Map.{lookup}
use bzapi.Base.Outcome.{Outcome, done, ◌>>=◌}
use bzapi.Messages.{Envelope, Wire}
use bzapi.Crypto.{OpenSsl}
use bzapi.Node.{Node, Step, success, on_read, close}
use bzapi.Swarm.{NodeInfo, NodeMap, StatusWire, Swarm}
use bzapi.Swarm.Incoming.{handle_node_message, max_message_size}
use bzapi.Swarm.Refused.{unparsed, handle_node_message-short, handle_node_message-refused}

module _ (w : Wire) (sw : StatusWire) (ssl : OpenSsl) (key : Option ssl.Key) {H C : Type 0}
    (answers : H → Bytes → Envelope → Outcome Bool) where
  -- The handler of `async_read`, with `handle_node_message` for its message handler.
  abbrev pub read_message : ℕ → ℕ → Bytes → Bytes → Swarm H → Bool → Node C → Step C
  read_message now date uuid bytes s is_open n =
      on_read success is_open
        (handle_node_message w sw ssl key answers now date uuid bytes s >>= λ r. done r.1) n

  -- A known node passes on a message that does not parse. With `MAX_MESSAGE_SIZE` bytes or more the
  -- node's `close` is called. With fewer the connection stays as it is, and the node neither closes
  -- it nor begins another read.
  pub read_message-unparsed :
      (now date : ℕ) (uuid bytes : Bytes) (s : Swarm H) (m : NodeMap) (info : NodeInfo)
      (is_open : Bool) (n : Node C)
      → s.nodes ≡ some m
      → lookup uuid m ≡ some info
      → w.parse_envelope bytes ≡ none
      → read_message now date uuid bytes s is_open n
        ≡ (if ltb (length bytes) max_message_size then done (n, []) else close is_open n)
  unfolding on_read
  read_message-unparsed now date uuid bytes s m info is_open n there known bad =
      elim (Bool-cases (ltb (length bytes) max_message_size)) [
        | inl short ↦
            rw
              (
                handle_node_message-short w sw ssl key answers now date uuid bytes s m info there
                    known bad (ground arith),
                short,
              )
              refl
        | inr long ↦
            rw
              (
                handle_node_message-refused w sw ssl key answers now date uuid bytes s m info true
                    there known (unparsed bad (ground arith)),
                long,
              )
              refl
      ]
