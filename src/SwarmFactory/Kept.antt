-- ===== src/SwarmFactory/Kept.antt =====
-- swarm/swarm_factory.cpp: `update_swarm_registry` keeps the swarm objects that are still there.
use bzapi.Base.{
  ℕ, subst, ◌≡◌, ◌≢◌, refl, sym, ap, ◌∙◌, List, [], ◌∷◌, Bool, false, Option, none, some,
  if◌then◌else◌, All, arith, list_eq, eq_refl, eq_iff, Option-cases, inl, inr,
}
use bzapi.Base.Text.{Bytes, is_empty}
use bzapi.Base.Map.{Map, lookup}
use bzapi.Base.OrderedMap.{assign, modify, lookup-assign}
use bzapi.Base.Outcome.{done, >>=-eq-done, done-returns}
use bzapi.Messages.{PeerAddress}
use bzapi.SwarmFactory.{Factory, lock}
use bzapi.SwarmFactory.Registry.{SwarmInfo, SwarmRegistry, info_of, add_node, get_swarm, emplace}
use bzapi.SwarmFactory.Discovery.{
  Esr, keep_swarm, discover_nodes, discover_swarms, discover, update_swarm_registry,
}
use bzapi.SwarmFactory.Served.{nodes-emplace, All-lookup, All-assign, set_swarm-found}

-- A named swarm with a node, whose object is the one it had, if that is still there.
abbrev pub Kept : (ℕ → Bool) → SwarmRegistry → Bytes × SwarmInfo → Type 0
Kept alive old (id, info) =
    (is_empty id ≡ false) × (info.nodes ≢ []) × (info.swarm ≡ lock alive (get_swarm id old))

All-modify-assign :
    {V : Type 0} (Holds : Bytes × V → Type 0) (k : Bytes) (f : V → V) (v : V) (m : Map Bytes V)
    → Holds (k, f v)
    → All Holds m
    → All Holds (modify k f (assign k v m))
unfolding assign modify
All-modify-assign Holds k f v [] this all = rw (eq_refl k) (this, tt)
All-modify-assign Holds k f v ((j, w) ∷ m) this (first, others) =
    ground (arith, All-modify-assign Holds k f v m this others, eq_refl k, eq_iff j k)

lookup-add_node :
    (id node : Bytes) (p : PeerAddress) (reg : SwarmRegistry)
    → (info : SwarmInfo) × (lookup id (add_node id node p reg) ≡ some info)
      × (add_node id node p reg ≡ assign id info reg)
      × (info.nodes ≢ [])
      × (info.swarm ≡ (info_of id reg).swarm)
unfolding add_node
lookup-add_node id node p reg =
    let info : SwarmInfo = record {
      nodes = emplace node p (info_of id reg).nodes;
      swarm = (info_of id reg).swarm;
    } in
    (
      info,
      lookup-assign id id info reg ∙ ap (λ b. if b then some info else lookup id reg) (eq_refl id),
      refl,
      nodes-emplace node p (info_of id reg).nodes,
      refl,
    )

module _ (alive : ℕ → Bool) (old : SwarmRegistry) where
  info_of-Kept :
      (id : Bytes) (reg : SwarmRegistry)
      → All (Kept alive old) reg
      → lock alive (get_swarm id old) ≡ none
      → (info_of id reg).swarm ≡ none
  info_of-Kept id reg all gone = elim (Option-cases (lookup id reg)) [
    | inl new ↦ rw (new, info_of) refl
    | inr (info, there) ↦
        let (named, nodes, kept) = All-lookup (Kept alive old) id reg all there in
        rw (there, info_of) (kept ∙ gone)
  ]

  -- One more node of a swarm.
  keep_swarm-Kept :
      (id node : Bytes) (p : PeerAddress) (o : Option ℕ) (reg : SwarmRegistry) {new : SwarmRegistry}
      → is_empty id ≡ false
      → All (Kept alive old) reg
      → lock alive (get_swarm id old) ≡ o
      → keep_swarm id o (add_node id node p reg) ≡ done new
      → All (Kept alive old) new
  unfolding keep_swarm
  keep_swarm-Kept id node p none reg {new} named all gone e =
      let (info, found, added, nodes, swarm) = lookup-add_node id node p reg in
      done-returns (All (Kept alive old)) e (
        subst (All (Kept alive old)) (sym added) (
          All-assign (Kept alive old) id info reg
            (named, nodes, swarm ∙ info_of-Kept id reg all gone ∙ sym gone) all))
  keep_swarm-Kept id node p (some sw) reg {new} named all there e =
      let (info, found, added, nodes, swarm) = lookup-add_node id node p reg in
      done-returns (All (Kept alive old))
        (sym (set_swarm-found id sw (add_node id node p reg) found) ∙ e)
        (subst (λ m. All (Kept alive old) (modify id (λ i. record i { swarm = some sw }) m))
          (sym added)
          (All-modify-assign (Kept alive old) id (λ i. record i { swarm = some sw }) info reg
            (named, nodes, sym there) all))

  module _ (esr : Esr) (esr_address esr_url : Bytes) where
    discover_nodes-Kept :
        (id : Bytes) (nodes : List Bytes) (reg : SwarmRegistry) {new : SwarmRegistry}
        → is_empty id ≡ false
        → All (Kept alive old) reg
        → discover_nodes esr esr_address esr_url alive old id nodes reg ≡ done new
        → All (Kept alive old) new
    unfolding discover_nodes
    discover_nodes-Kept id [] reg {new} named all e = done-returns (All (Kept alive old)) e all
    discover_nodes-Kept id (node ∷ nodes) reg {new} named all e =
        let (p, told, e1) = >>=-eq-done (esr.get_peer_info id node esr_address esr_url) _ e in
        let (reg1, one, e2) =
          >>=-eq-done (keep_swarm id (lock alive (get_swarm id old)) (add_node id node p reg)) _
            e1 in
        discover_nodes-Kept id nodes reg1 named (keep_swarm-Kept id node p _ reg named all refl one)
          e2

    discover_swarms-Kept :
        (ids : List Bytes) (reg : SwarmRegistry) {new : SwarmRegistry}
        → All (λ id. is_empty id ≡ false) ids
        → All (Kept alive old) reg
        → discover_swarms esr esr_address esr_url alive old ids reg ≡ done new
        → All (Kept alive old) new
    unfolding discover_swarms
    discover_swarms-Kept [] reg {new} named all e = done-returns (All (Kept alive old)) e all
    discover_swarms-Kept (id ∷ ids) reg {new} (this, others) all e =
        let (nodes, told, e1) = >>=-eq-done (esr.get_peer_ids id esr_address esr_url) _ e in
        let (reg1, one, e2) =
          >>=-eq-done (discover_nodes esr esr_address esr_url alive old id nodes reg) _ e1 in
        discover_swarms-Kept ids reg1 others (discover_nodes-Kept id nodes reg this all one) e2

-- When the registry is read anew from an ESR that names no swarm by the empty string: every swarm
-- of it has a node, so that it can be made, and has the object that it had, if that is still there,
-- and else none.
pub update_swarm_registry-Kept :
    (esr : Esr) (esr_address esr_url : Bytes) (alive : ℕ → Bool) (s : Factory) {ids : List Bytes}
    {t : Factory}
    → is_empty esr_address ≡ false
    → is_empty esr_url ≡ false
    → esr.get_swarm_ids esr_address esr_url ≡ done ids
    → All (λ id. is_empty id ≡ false) ids
    → update_swarm_registry esr esr_address esr_url alive s ≡ done t
    → All (Kept alive s.swarm_reg) t.swarm_reg
unfolding update_swarm_registry discover
update_swarm_registry-Kept esr esr_address esr_url alive s {ids} {t} address url known named e =
    let e0 : discover esr esr_address esr_url alive s ≡ done t = rw (address, url) at e in
    let (ids', known', e1) = >>=-eq-done (esr.get_swarm_ids esr_address esr_url) _ e0 in
    let (reg, found, e2) =
      >>=-eq-done (discover_swarms esr esr_address esr_url alive s.swarm_reg ids' []) _ e1 in
    done-returns (λ t. All (Kept alive s.swarm_reg) t.swarm_reg) e2
      (discover_swarms-Kept alive s.swarm_reg esr esr_address esr_url ids' []
        (done-returns (All (λ id. is_empty id ≡ false)) (sym known ∙ known') named) tt found)
