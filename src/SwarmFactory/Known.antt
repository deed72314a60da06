-- ===== src/SwarmFactory/Known.antt =====
-- swarm/swarm_factory.cpp: what the registry knows after `initialize`, by either way.
use bzapi.Base.{
  ◌≡◌, refl, sym, ap, ◌∙◌, List, [], ◌∷◌, ◌++◌, false, none, some, if◌then◌else◌, All, arith,
  list_eq, eq_refl, eq_iff, Option-cases, inl, inr,
}
use mathlib.Core.List.{append_assoc, append-nil}
use bzapi.Base.Text.{Bytes, is_empty}
use bzapi.Base.Map.{Map, lookup}
use bzapi.Base.OrderedMap.{assign, lookup-assign}
use bzapi.Messages.{PeerAddress}
use bzapi.SwarmFactory.{Factory, initialize_nodes}
use bzapi.SwarmFactory.Registry.{
  SwarmInfo, SwarmRegistry, info_of, emplace, add_node, add_nodes, get_nodes,
}
use bzapi.SwarmFactory.Served.{Served, add_node-Served}

lookup-append :
    {V : Type 0} (k : Bytes) (front back : Map Bytes V)
    → lookup k (front ++ back) ≡ (elim (lookup k front) [ some v ↦ some v | none ↦ lookup k back ])
unfolding lookup
lookup-append k [] back = refl
lookup-append k ((j, w) ∷ front) back = ground (arith, lookup-append k front back)

-- `emplace` adds an entry that comes after those that are there.
lookup-emplace :
    (id n : Bytes) (p : PeerAddress) (m : Map Bytes PeerAddress)
    → lookup n (emplace id p m) ≡ lookup n (m ++ ((id, p) ∷ []))
unfolding emplace lookup
lookup-emplace id n p m = elim (Option-cases (lookup id m)) [
  | inl new ↦
      rw (new, emplace)
        (ground (arith, lookup-assign id n p m, lookup-append n m ((id, p) ∷ []), eq_iff id n, new))
  | inr (old, there) ↦
      rw (there, emplace) (ground (arith, lookup-append n m ((id, p) ∷ []), eq_iff id n, there))
]

info_of-nodes : (id : Bytes) (reg : SwarmRegistry) → (info_of id reg).nodes ≡ get_nodes id reg
unfolding get_nodes
info_of-nodes id reg = elim (Option-cases (lookup id reg)) [
  | inl new ↦ rw (new, info_of, get_nodes) refl
  | inr (info, there) ↦ rw (there, info_of, get_nodes) refl
]

get_nodes-assign :
    (id : Bytes) (info : SwarmInfo) (reg : SwarmRegistry)
    → get_nodes id (assign id info reg) ≡ info.nodes
unfolding get_nodes
get_nodes-assign id info reg =
    ap (λ o. elim o [ none ↦ [] | some info ↦ info.nodes ])
      (lookup-assign id id info reg ∙ ap (λ b. if b then some info else lookup id reg) (eq_refl id))

get_nodes-add_node :
    (id node n : Bytes) (p : PeerAddress) (reg : SwarmRegistry)
    → lookup n (get_nodes id (add_node id node p reg))
      ≡ lookup n (get_nodes id reg ++ ((node, p) ∷ []))
unfolding add_node
get_nodes-add_node id node n p reg =
    ap (lookup n) (get_nodes-assign id _ reg)
    ∙ lookup-emplace node n p (info_of id reg).nodes
    ∙ ap (λ m. lookup n (m ++ ((node, p) ∷ []))) (info_of-nodes id reg)

-- The nodes of a swarm are those it had and, after them, those that are added: of two endpoints for
-- a node, the first one counts.
get_nodes-add_nodes :
    (id n : Bytes) (nodes : List (Bytes × PeerAddress)) (reg : SwarmRegistry)
    → lookup n (get_nodes id (add_nodes id nodes reg)) ≡ lookup n (get_nodes id reg ++ nodes)
unfolding add_nodes
get_nodes-add_nodes id n [] reg = ap (lookup n) (sym (append-nil (get_nodes id reg)))
get_nodes-add_nodes id n ((node, p) ∷ nodes) reg =
    get_nodes-add_nodes id n nodes (add_node id node p reg)
    ∙ lookup-append n (get_nodes id (add_node id node p reg)) nodes
    ∙ ap (λ o. elim o [ some v ↦ some v | none ↦ lookup n nodes ])
        (get_nodes-add_node id node n p reg)
    ∙ sym (lookup-append n (get_nodes id reg ++ ((node, p) ∷ [])) nodes)
    ∙ ap (lookup n) (append_assoc (get_nodes id reg) ((node, p) ∷ []) nodes)

add_nodes-Served :
    (id : Bytes) (nodes : List (Bytes × PeerAddress)) (reg : SwarmRegistry)
    → is_empty id ≡ false
    → All Served reg
    → All Served (add_nodes id nodes reg)
unfolding add_nodes
add_nodes-Served id [] reg named all = all
add_nodes-Served id ((node, p) ∷ nodes) reg named all =
    add_nodes-Served id nodes (add_node id node p reg) named
      (add_node-Served id node p reg named all)

-- After `initialize` with the nodes of a named swarm, the registry finds for each node the first of
-- the endpoints that were given for it, and for no other node any; every swarm in it can be made.
pub initialize_nodes-lookup :
    (id n : Bytes) (nodes : List (Bytes × PeerAddress)) (s : Factory)
    → is_empty id ≡ false
    → (lookup n (get_nodes id (initialize_nodes id nodes s).swarm_reg) ≡ lookup n nodes)
      × All Served (initialize_nodes id nodes s).swarm_reg
unfolding initialize_nodes get_nodes lookup
initialize_nodes-lookup id n nodes s named =
    (get_nodes-add_nodes id n nodes [], add_nodes-Served id nodes [] named tt)
