-- ===== src/Swarm/Usable.antt =====
-- swarm/swarm.cpp: when every node of the swarm can be sent to.
use bzapi.Base.{
  ◌≤◌, ◌≡◌, refl, List, [], ◌∷◌, true, some, length, ◌==◌, list_eq, arith, Bool-cases, inl, inr,
  eq_refl,
}
use bzapi.Base.Text.{Bytes}
use bzapi.Base.Map.{lookup, insert, length-insert-pos}
use bzapi.Base.Outcome.{done}
use bzapi.Swarm.{
  NodeInfo, NodeMap, Swarm, init_nodes, get_nodes, node_map, set_nodes, Address, add_node,
}

-- Every entry has its node.
abbrev pub HasNodes : NodeMap → Type 0
HasNodes [] = Unit {0}
HasNodes ((id, info) ∷ m) = (info.has_node ≡ true) × HasNodes m

pub insert-HasNodes :
    (id : Bytes) (info : NodeInfo) (m : NodeMap)
    → info.has_node ≡ true
    → HasNodes m
    → HasNodes (insert id info m)
unfolding insert
insert-HasNodes id info [] i h = (i, tt)
insert-HasNodes id info ((j, v) ∷ m) i h = elim (Bool-cases (j == id)) [
  | inl here ↦ rw here (i, h.1)
  | inr other ↦ rw other (h.0, insert-HasNodes id info m i h.1)
]

pub lookup-HasNodes :
    (id : Bytes) (m : NodeMap) (info : NodeInfo)
    → HasNodes m
    → lookup id m ≡ some info
    → info.has_node ≡ true
unfolding lookup
lookup-HasNodes id [] info h e = cc
lookup-HasNodes id ((j, v) ∷ m) info h e = elim (Bool-cases (j == id)) [
  | inl here ↦ let q = rw here at e in ground arith
  | inr other ↦ lookup-HasNodes id m info h.1 (rw other at e)
]

pub lookup-first :
    (j : Bytes) (info : NodeInfo) (m : NodeMap) → lookup j ((j, info) ∷ m) ≡ some info
unfolding lookup
lookup-first j info m = rw (eq_refl j) refl

node_map-HasNodes :
    (l : List (Bytes × Address)) (m : NodeMap) → HasNodes m → HasNodes (node_map l m)
unfolding node_map
node_map-HasNodes [] m h = h
node_map-HasNodes ((id, addr) ∷ l) m h =
    node_map-HasNodes l (insert id (add_node addr) m) (insert-HasNodes id (add_node addr) m refl h)

node_map-pos : (l : List (Bytes × Address)) (m : NodeMap) → 1 ≤ length m → 1 ≤ length (node_map l m)
unfolding node_map
node_map-pos [] m h = h
node_map-pos ((id, addr) ∷ l) m h =
    node_map-pos l (insert id (add_node addr) m) (length-insert-pos id (add_node addr) m)

-- The nodes are there and each can be sent to; or none are yet, and `init_nodes` will make them.
pub data IsUsable {H : Type 0} (s : Swarm H) : Type 0 where
  ready :
      (m : NodeMap)
      → s.initial_nodes ≡ []
      → s.nodes ≡ some m
      → 1 ≤ length m
      → HasNodes m
      → IsUsable s
  initial : 1 ≤ length s.initial_nodes → IsUsable s

module _ {H : Type 0} where
  pub get_nodes-some : (s : Swarm H) (m : NodeMap) → s.nodes ≡ some m → get_nodes s ≡ done m
  unfolding get_nodes
  get_nodes-some s m n = rw n refl

  set_nodes-usable :
      (l : List (Bytes × Address)) (s : Swarm H)
      → 1 ≤ length l
      → (m : NodeMap) × ((set_nodes l s).0.nodes ≡ some m) × (1 ≤ length m) × HasNodes m
  unfolding set_nodes node_map
  set_nodes-usable [] s pos = elim pos [ ]
  set_nodes-usable ((id, addr) ∷ rest) s pos =
      let first = insert id (add_node addr) [] in
      (
        node_map rest first,
        refl,
        node_map-pos rest first (length-insert-pos id (add_node addr) []),
        node_map-HasNodes rest first (insert-HasNodes id (add_node addr) [] refl tt),
      )

  -- What `init_nodes` leaves.
  pub init_nodes-usable :
      (s : Swarm H)
      → IsUsable s
      → (m : NodeMap) × ((init_nodes s).0.nodes ≡ some m) × (1 ≤ length m) × HasNodes m
  unfolding init_nodes set_nodes
  init_nodes-usable s (ready m i n l h) = (m, rw i n, l, h)
  init_nodes-usable s (initial pos) = set_nodes-usable s.initial_nodes s pos

  -- Without initial nodes nothing is changed.
  pub init_nodes-none : (s : Swarm H) → s.initial_nodes ≡ [] → init_nodes s ≡ (s, [])
  unfolding init_nodes set_nodes
  init_nodes-none s none_left = rw none_left refl
