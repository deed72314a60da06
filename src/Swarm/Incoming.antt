-- ===== src/Swarm/Incoming.antt =====
-- swarm/swarm.cpp: `handle_node_message`, what a node passes on. `answers` is what another's handler
-- returns. Where a call throws, the state is not followed further.
use bzapi.Base.{
  ℕ, List, [], ◌∷◌, ◌++◌, Bool, true, false, not, ◌&&◌, Option, none, some, if◌then◌else◌, ltb,
  length, ◌==◌, list_eq, nat_eq,
}
use bzapi.Base.Text.{Bytes, is_empty}
use bzapi.Base.Map.{lookup, insert}
use bzapi.Base.Outcome.{Outcome, done, threw, undefined, ◌>>=◌}
use bzapi.Messages.{Payload, Envelope, Wire, payload_case, too_busy_error_msg}
use bzapi.Crypto.{OpenSsl, verify}
use bzapi.Swarm.{NodeMap, StatusWire, own_status, registered, Swarm, Effect, back_off, get_nodes}
use bzapi.Swarm.Status.{handle_status_response}

-- `MAX_MESSAGE_SIZE`.
abbrev pub max_message_size : ℕ
max_message_size = 1024

abbrev pub is_known : Bytes → NodeMap → Bool
is_known id m = elim (lookup id m) [ none ↦ false | some info ↦ true ]

abbrev pub status_response_of : Payload → Bytes
status_response_of (Payload.status_response b) = b
status_response_of _ = []

module _ (w : Wire) where
  -- `backoff_val`: only a swarm error that says so is a busy one.
  pub is_busy : Payload → Bool
  is_busy (Payload.swarm_error b) = elim (w.parse_error b) [
    | none ↦ false
    | some err ↦ err.message == too_busy_error_msg
  ]
  is_busy _ = false

  -- `back_off` of every node; a null pointer among them is undefined.
  pub back_off_all : {H : Type 0} → Bool → NodeMap → Outcome (List (Effect H))
  back_off_all value [] = done []
  back_off_all value ((id, info) ∷ rest) = do
    more ← back_off_all value rest
    if info.has_node then done (back_off id value ∷ more) else undefined

-- The signature is verified where there is one.
unfoldable pub signature_holds : OpenSsl → Envelope → Outcome Bool
signature_holds ssl env = if ltb 0 (length env.signature) then verify ssl env else done true

-- The effects that come first.
abbrev pub preceded :
    {H : Type 0}
    → List (Effect H)
    → (Swarm H × List (Effect H)) × Bool
    → (Swarm H × List (Effect H)) × Bool
preceded first ((s, out), res) = ((s, first ++ out), res)

module _ (w : Wire) (sw : StatusWire) (ssl : OpenSsl) (key : Option ssl.Key) {H : Type 0}
    (answers : H → Bytes → Envelope → Outcome Bool) where
  -- The handler for the type of payload.
  unfoldable pub respond :
      ℕ → ℕ → Bytes → Envelope → Swarm H → Outcome ((Swarm H × List (Effect H)) × Bool)
  unfolding handle_status_response
  respond now date uuid env s = elim (lookup (payload_case env.payload) s.response_handlers) [
    | none ↦ done ((s, []), false)
    | some own_status ↦
        handle_status_response w sw ssl key now date uuid (status_response_of env.payload) s
    | some (registered h) ↦ do res ← answers h uuid env; done ((s, []), res)
  ]

  -- From `adjust node "speed"` on.
  unfoldable pub dispatch :
      ℕ → ℕ → Bytes → Envelope → NodeMap → Swarm H → Outcome ((Swarm H × List (Effect H)) × Bool)
  unfolding respond is_busy back_off_all
  dispatch now date uuid env m s = do
    slowed ← back_off_all w (is_busy w env.payload) m
    r ← respond now date uuid env s
    done (preceded slowed r)

  -- A message that parsed: the sender, then the signature.
  unfoldable pub accept :
      ℕ → ℕ → Bytes → Envelope → NodeMap → Swarm H → Outcome ((Swarm H × List (Effect H)) × Bool)
  unfolding dispatch signature_holds
  accept now date uuid env m s =
      if not (is_empty env.sender) && not (is_known env.sender m) then done ((s, []), false) else do
        holds ← signature_holds ssl env
        if holds then dispatch now date uuid env m s else done ((s, []), true)

  -- From the look-up of the node on. What is logged of a message that does not parse is
  -- `std::string(data, MAX_MESSAGE_SIZE)`, the text from that place on: the constructor throws where
  -- the message is shorter.
  unfoldable pub pass_on :
      ℕ → ℕ → Bytes → Bytes → Swarm H → NodeMap → Outcome ((Swarm H × List (Effect H)) × Bool)
  unfolding accept
  pass_on now date uuid bytes s m = elim (lookup uuid m) [
    | none ↦ done ((s, []), true)
    | some info ↦
        let m' = insert uuid (record info { last_message_received = date }) m in
        let s' = record s { nodes = some m' } in
        elim (w.parse_envelope bytes) [
          | none ↦ if ltb (length bytes) max_message_size then threw else done ((s', []), true)
          | some env ↦ accept now date uuid env m' s'
        ]
  ]

  -- The result says whether the connection is to be closed.
  unfoldable pub handle_node_message :
      ℕ → ℕ → Bytes → Bytes → Swarm H → Outcome ((Swarm H × List (Effect H)) × Bool)
  unfolding pass_on
  handle_node_message now date uuid bytes s = do m ← get_nodes s; pass_on now date uuid bytes s m
