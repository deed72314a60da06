-- ===== src/SwarmFactory/Discovery.antt =====
-- swarm/swarm_factory.cpp: `initialize` and `update_swarm_registry` with the ESR, which is an `Esr`
-- (swarm/esr_base.hpp).
use bzapi.Base.{ℕ, List, [], ◌∷◌, Bool, true, not, ◌&&◌, Option, none, some, if◌then◌else◌}
use bzapi.Base.Text.{Bytes, is_empty}
use bzapi.Base.Outcome.{Outcome, done, ◌>>=◌}
use bzapi.Messages.{PeerAddress}
use bzapi.SwarmFactory.{Factory, lock}
use bzapi.SwarmFactory.Registry.{SwarmRegistry, add_node, get_swarm, set_swarm}

-- The ESR at an address and a URL: each call may throw.
pub record Esr : Type 0 where
  pub get_swarm_ids : Bytes → Bytes → Outcome (List Bytes)
  pub get_peer_ids : Bytes → Bytes → Bytes → Outcome (List Bytes)
  pub get_peer_info : Bytes → Bytes → Bytes → Bytes → Outcome PeerAddress

-- The swarm object that the old registry has is kept, if it is still there.
unfoldable pub keep_swarm : Bytes → Option ℕ → SwarmRegistry → Outcome SwarmRegistry
unfolding set_swarm
keep_swarm sw_id none reg = done reg
keep_swarm sw_id (some sw) reg = set_swarm sw_id sw reg

module _ (esr : Esr) (esr_address esr_url : Bytes) (alive : ℕ → Bool) (old : SwarmRegistry) where
  -- The loop over the nodes of a swarm.
  unfoldable pub discover_nodes : Bytes → List Bytes → SwarmRegistry → Outcome SwarmRegistry
  unfolding keep_swarm lock get_swarm add_node
  discover_nodes sw_id [] reg = done reg
  discover_nodes sw_id (node ∷ nodes) reg = do
    ep ← esr.get_peer_info sw_id node esr_address esr_url
    reg1 ← keep_swarm sw_id (lock alive (get_swarm sw_id old)) (add_node sw_id node ep reg)
    discover_nodes sw_id nodes reg1

  -- The loop over the swarms.
  unfoldable pub discover_swarms : List Bytes → SwarmRegistry → Outcome SwarmRegistry
  unfolding discover_nodes
  discover_swarms [] reg = done reg
  discover_swarms (sw_id ∷ ids) reg = do
    nodes ← esr.get_peer_ids sw_id esr_address esr_url
    reg1 ← discover_nodes sw_id nodes reg
    discover_swarms ids reg1

module _ (esr : Esr) where
  -- `update_swarm_registry` where an address and a URL are set.
  unfoldable pub discover : Bytes → Bytes → (ℕ → Bool) → Factory → Outcome Factory
  unfolding discover_swarms
  discover esr_address esr_url alive s = do
    ids ← esr.get_swarm_ids esr_address esr_url
    reg ← discover_swarms esr esr_address esr_url alive s.swarm_reg ids []
    done (record s { swarm_reg = reg })

  unfoldable pub update_swarm_registry : Bytes → Bytes → (ℕ → Bool) → Factory → Outcome Factory
  unfolding discover
  update_swarm_registry esr_address esr_url alive s =
      if not (is_empty esr_address) && not (is_empty esr_url)
      then discover esr_address esr_url alive s
      else done s

  unfoldable pub initialize_esr : Bytes → Bytes → (ℕ → Bool) → Factory → Outcome Factory
  unfolding update_swarm_registry
  initialize_esr esr_address esr_url alive s = do
    s1 ← update_swarm_registry esr_address esr_url alive (record s { swarm_reg = [] })
    done (record s1 { initialized = true })
