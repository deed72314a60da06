-- ===== src/Swarm/Refused.antt =====
-- swarm/swarm.cpp: which messages `handle_node_message` refuses.
use bzapi.Base.{
  ℕ, ◌≡◌, ◌∙◌, ap, ◌<◌, ◌≤◌, ltb, refl, [], Bool, true, false, not, ◌&&◌, Option, none, some,
  length, list_eq, arith,
}
use bzapi.Base.Text.{Bytes, is_empty}
use bzapi.Base.Map.{lookup, insert}
use bzapi.Base.Outcome.{Outcome, done, threw, ◌>>=◌}
use bzapi.Messages.{Envelope, Wire}
use bzapi.Crypto.{OpenSsl, verify, deterministic_serialize, extract_payload}
use bzapi.Swarm.{NodeInfo, NodeMap, StatusWire, Swarm}
use bzapi.Swarm.Usable.{get_nodes-some}
use bzapi.Swarm.Incoming.{
  handle_node_message, pass_on, accept, is_known, signature_holds, max_message_size,
}

-- The node's message arrived: the nodes with its time.
abbrev pub touched : ℕ → Bytes → NodeInfo → NodeMap → NodeMap
touched date uuid info m = insert uuid (record info { last_message_received = date }) m

-- A message of at least `MAX_MESSAGE_SIZE` bytes that does not parse, or one that has a sender that is not among the nodes, or has a signature that
-- does not verify; and whether the connection is then closed.
pub data IsRefused (w : Wire) (ssl : OpenSsl) (m : NodeMap) (bytes : Bytes) : Bool → Type 0 where
  unparsed :
      w.parse_envelope bytes ≡ none → max_message_size ≤ length bytes → IsRefused w ssl m bytes true
  unknown_sender :
      (env : Envelope)
      → w.parse_envelope bytes ≡ some env
      → is_empty env.sender ≡ false
      → is_known env.sender m ≡ false
      → IsRefused w ssl m bytes false
  bad_signature :
      (env : Envelope)
      → w.parse_envelope bytes ≡ some env
      → (not (is_empty env.sender) && not (is_known env.sender m)) ≡ false
      → 0 < length env.signature
      → verify ssl env ≡ done false
      → IsRefused w ssl m bytes true

signature_holds-signed :
    (ssl : OpenSsl) (env : Envelope)
    → 0 < length env.signature
    → signature_holds ssl env ≡ verify ssl env
unfolding signature_holds
signature_holds-signed ssl env pos = ground arith

module _ (w : Wire) (sw : StatusWire) (ssl : OpenSsl) (key : Option ssl.Key) {H : Type 0}
    (answers : H → Bytes → Envelope → Outcome Bool) where
  known :
      (now date : ℕ) (uuid bytes : Bytes) (s : Swarm H) (m : NodeMap)
      → s.nodes ≡ some m
      → handle_node_message w sw ssl key answers now date uuid bytes s
        ≡ pass_on w sw ssl key answers now date uuid bytes s m
  unfolding handle_node_message
  known now date uuid bytes s m n =
      ap (λ o. o >>= pass_on w sw ssl key answers now date uuid bytes s) (get_nodes-some s m n)

  parsed :
      (now date : ℕ) (uuid bytes : Bytes) (s : Swarm H) (m : NodeMap) (info : NodeInfo)
      (env : Envelope)
      → s.nodes ≡ some m
      → lookup uuid m ≡ some info
      → w.parse_envelope bytes ≡ some env
      → handle_node_message w sw ssl key answers now date uuid bytes s
        ≡ accept w sw ssl key answers now date uuid env
            (touched date uuid info m)
            (record s { nodes = some (touched date uuid info m) })
  unfolding pass_on
  parsed now date uuid bytes s m info env n l e =
      known now date uuid bytes s m n ∙ rw (pass_on, l, e) refl

  -- A message that does not parse and has fewer than `MAX_MESSAGE_SIZE` bytes makes
  -- `handle_node_message` throw.
  pub handle_node_message-short :
      (now date : ℕ) (uuid bytes : Bytes) (s : Swarm H) (m : NodeMap) (info : NodeInfo)
      → s.nodes ≡ some m
      → lookup uuid m ≡ some info
      → w.parse_envelope bytes ≡ none
      → length bytes < max_message_size
      → handle_node_message w sw ssl key answers now date uuid bytes s ≡ threw
  unfolding pass_on
  handle_node_message-short now date uuid bytes s m info n l e short =
      let cut : ltb (length bytes) max_message_size ≡ true = ground arith in
      known now date uuid bytes s m n ∙ rw (pass_on, l, e) (rw cut refl)

  -- When the message of a known node does not parse and has at least `MAX_MESSAGE_SIZE` bytes, or has
  -- a sender that is not among the nodes, or a signature that does not verify: no handler is called,
  -- the only change of the state is the time of the node's last message, and the connection is closed
  -- unless it is the sender that is not known.
  pub handle_node_message-refused :
      (now date : ℕ) (uuid bytes : Bytes) (s : Swarm H) (m : NodeMap) (info : NodeInfo)
      (closing : Bool)
      → s.nodes ≡ some m
      → lookup uuid m ≡ some info
      → IsRefused w ssl (touched date uuid info m) bytes closing
      → handle_node_message w sw ssl key answers now date uuid bytes s
        ≡ done ((record s { nodes = some (touched date uuid info m) }, []), closing)
  unfolding pass_on accept
  handle_node_message-refused now date uuid bytes s m info _ n l (unparsed e long) =
      let fits : ltb (length bytes) max_message_size ≡ false = ground arith in
      known now date uuid bytes s m n ∙ rw (pass_on, l, e) (rw fits refl)
  handle_node_message-refused now date uuid bytes s m info _ n l
        (unknown_sender env e sender unknown) =
      rw (parsed now date uuid bytes s m info env n l e, accept, sender, unknown) refl
  handle_node_message-refused now date uuid bytes s m info _ n l
        (bad_signature env e sender pos bad) =
      rw
        (
          parsed now date uuid bytes s m info env n l e,
          accept,
          sender,
          signature_holds-signed ssl env pos,
          bad,
        )
        refl

  -- A signed message of a payload type that is not signed for (a swarm error is one) makes
  -- `handle_node_message` throw, whoever sent it: from a known node, with a known sender or none.
  pub handle_node_message-throws :
      (now date : ℕ) (uuid bytes : Bytes) (s : Swarm H) (m : NodeMap) (info : NodeInfo)
      (env : Envelope)
      → s.nodes ≡ some m
      → lookup uuid m ≡ some info
      → w.parse_envelope bytes ≡ some env
      → (not (is_empty env.sender) && not (is_known env.sender (touched date uuid info m))) ≡ false
      → 0 < length env.signature
      → extract_payload env.payload ≡ threw
      → handle_node_message w sw ssl key answers now date uuid bytes s ≡ threw
  unfolding accept verify deterministic_serialize
  handle_node_message-throws now date uuid bytes s m info env n l e sender pos unsignable =
      rw
        (
          parsed now date uuid bytes s m info env n l e,
          accept,
          sender,
          signature_holds-signed ssl env pos,
          verify,
          deterministic_serialize,
          unsignable,
        )
        refl
