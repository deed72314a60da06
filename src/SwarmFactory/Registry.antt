-- ===== src/SwarmFactory/Registry.antt =====
-- swarm/swarm_factory.cpp: `swarm_registry`.
use bzapi.Base.{ℕ, List, [], ◌∷◌, Option, none, some}
use bzapi.Base.Text.{Bytes}
use bzapi.Base.Map.{Map, lookup}
use bzapi.Base.OrderedMap.{assign, keys_of, modify}
use bzapi.Base.Outcome.{Outcome, done, undefined}
use bzapi.Base.{list_eq}
use bzapi.Messages.{PeerAddress}

-- `swarm` is `none` where the weak pointer was never set.
pub record SwarmInfo : Type 0 where
  pub nodes : Map Bytes PeerAddress
  pub swarm : Option ℕ

abbrev pub SwarmRegistry : Type 0
SwarmRegistry = Map Bytes SwarmInfo

abbrev pub info_of : Bytes → SwarmRegistry → SwarmInfo
info_of swarm_id reg = elim (lookup swarm_id reg) [
  | none ↦ record { nodes = []; swarm = none }
  | some info ↦ info
]

-- `emplace` keeps an entry that is there.
unfoldable pub emplace : Bytes → PeerAddress → Map Bytes PeerAddress → Map Bytes PeerAddress
emplace node_id endpoint m = elim (lookup node_id m) [
  | none ↦ assign node_id endpoint m
  | some old ↦ m
]

unfoldable pub add_node : Bytes → Bytes → PeerAddress → SwarmRegistry → SwarmRegistry
unfolding emplace
add_node swarm_id node_id endpoint reg =
    let info = info_of swarm_id reg in
    assign swarm_id (record info { nodes = emplace node_id endpoint info.nodes }) reg

-- The loop of `initialize`.
unfoldable pub add_nodes : Bytes → List (Bytes × PeerAddress) → SwarmRegistry → SwarmRegistry
unfolding add_node
add_nodes swarm_id [] reg = reg
add_nodes swarm_id ((node_id, endpoint) ∷ nodes) reg =
    add_nodes swarm_id nodes (add_node swarm_id node_id endpoint reg)

unfoldable pub get_swarms : SwarmRegistry → List Bytes
get_swarms reg = keys_of reg

unfoldable pub get_nodes : Bytes → SwarmRegistry → List (Bytes × PeerAddress)
get_nodes swarm_id reg = elim (lookup swarm_id reg) [ none ↦ [] | some info ↦ info.nodes ]

unfoldable pub get_swarm : Bytes → SwarmRegistry → Option ℕ
get_swarm swarm_id reg = elim (lookup swarm_id reg) [ none ↦ none | some info ↦ info.swarm ]

-- The assertion that the swarm is there.
unfoldable pub set_swarm : Bytes → ℕ → SwarmRegistry → Outcome SwarmRegistry
set_swarm swarm_id sw reg = elim (lookup swarm_id reg) [
  | none ↦ undefined
  | some info ↦ done (modify swarm_id (λ i. record i { swarm = some sw }) reg)
]
