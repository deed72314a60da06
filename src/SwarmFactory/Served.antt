-- ===== src/SwarmFactory/Served.antt =====
-- swarm/swarm_factory.cpp: the registries in which every swarm can be made, where the assertion of
-- `get_or_create_swarm` never fails.
use bzapi.Base.{
  ℕ, zero, suc, ◌+◌, subst, ◌≡◌, ◌≢◌, refl, ap, ◌∙◌, List, [], ◌∷◌, Bool, false, none, some, All,
  arith, list_eq, eq_refl, eq_iff, ◌==◌, Bool-cases, Option-cases, inl, inr,
}
use bzapi.Base.Text.{Bytes, is_empty}
use bzapi.Base.Map.{Map, lookup}
use bzapi.Base.OrderedMap.{assign, modify, keys_of, keys_of-modify}
use bzapi.Base.Outcome.{Outcome, done}
use bzapi.Messages.{PeerAddress}
use bzapi.SwarmFactory.{Factory, Effect, new_swarm, nth, lock, create_swarm, get_or_create_swarm}
use bzapi.SwarmFactory.Registry.{
  SwarmInfo, SwarmRegistry, emplace, add_node, get_swarms, get_nodes, get_swarm, set_swarm,
}

-- A swarm with a name and a node.
abbrev pub Served : Bytes × SwarmInfo → Type 0
Served (id, info) = (is_empty id ≡ false) × (info.nodes ≢ [])

some-injective : {V : Type 0} {v w : V} → some v ≡ some w → v ≡ w
some-injective e = cc

head-injective : {j id : Bytes} → ◌≡◌ {A = Outcome Bytes} (done j) (done id) → j ≡ id
head-injective e = cc

-- All of a map's entries, whatever key they are found under.
pub All-lookup :
    {V : Type 0} (Holds : Bytes × V → Type 0) (k : Bytes) (m : Map Bytes V) {v : V}
    → All Holds m
    → lookup k m ≡ some v
    → Holds (k, v)
unfolding lookup
All-lookup Holds k [] {v} all e = cc
All-lookup {V} Holds k ((j, w) ∷ m) {v} (this, others) e = elim (Bool-cases (j == k)) [
  | inl same ↦
      subst (λ i. Holds (i, v)) ((eq_iff j k).0 same)
        (subst (λ x. Holds (j, x)) (some-injective (rw same at e)) this)
  | inr differs ↦ All-lookup Holds k m others (rw differs at e)
]

pub All-assign :
    {V : Type 0} (Holds : Bytes × V → Type 0) (k : Bytes) (v : V) (m : Map Bytes V)
    → Holds (k, v)
    → All Holds m
    → All Holds (assign k v m)
unfolding assign
All-assign Holds k v [] this all = (this, tt)
All-assign Holds k v ((j, w) ∷ m) this (first, others) =
    ground (arith, All-assign Holds k v m this others)

nodes-assign : (id : Bytes) (p : PeerAddress) (m : Map Bytes PeerAddress) → assign id p m ≢ []
unfolding assign
nodes-assign id p [] = λ e. cc
nodes-assign id p ((j, w) ∷ m) = ground arith

pub nodes-emplace : (id : Bytes) (p : PeerAddress) (m : Map Bytes PeerAddress) → emplace id p m ≢ []
unfolding emplace lookup
nodes-emplace id p [] = nodes-assign id p []
nodes-emplace id p (e ∷ m) = ground (arith, nodes-assign id p (e ∷ m))

-- `add_node` keeps it that every swarm has a name and a node.
pub add_node-Served :
    (id node : Bytes) (p : PeerAddress) (reg : SwarmRegistry)
    → is_empty id ≡ false
    → All Served reg
    → All Served (add_node id node p reg)
unfolding add_node
add_node-Served id node p reg named all =
    All-assign Served id _ reg (named, nodes-emplace node p _) all

pub modify-Served :
    (id : Bytes) (sw : ℕ) (reg : SwarmRegistry)
    → All Served reg
    → All Served (modify id (λ i. record i { swarm = some sw }) reg)
unfolding modify
modify-Served id sw [] all = tt
modify-Served id sw ((j, w) ∷ reg) (first, others) = ground (arith, modify-Served id sw reg others)

-- A swarm of the list is in the registry.
nth-keys_of :
    (n : ℕ) (reg : SwarmRegistry) {id : Bytes}
    → nth n (keys_of reg) ≡ done id
    → (info : SwarmInfo) × (lookup id reg ≡ some info)
unfolding nth lookup
nth-keys_of n [] e = cc
nth-keys_of zero ((j, w) ∷ reg) {id} e =
    (w, subst (λ i. lookup i ((j, w) ∷ reg) ≡ some w) (head-injective e) (rw (eq_refl j) refl))
nth-keys_of (suc n) ((j, w) ∷ reg) {id} e =
    let (info, found) = nth-keys_of n reg e in
    elim (Bool-cases (j == id)) [
      | inl same ↦ (w, rw same refl)
      | inr differs ↦ (info, rw differs found)
    ]

pub set_swarm-found :
    (id : Bytes) (sw : ℕ) (reg : SwarmRegistry) {info : SwarmInfo}
    → lookup id reg ≡ some info
    → set_swarm id sw reg ≡ done (modify id (λ i. record i { swarm = some sw }) reg)
unfolding set_swarm
set_swarm-found id sw reg found = rw (found, set_swarm) refl

-- A swarm that is made.
abbrev pub IsNew : {H : Type 0} → Effect H → Type 0
IsNew (new_swarm sw id nodes) = Unit
IsNew e = ⊥

-- A swarm was found or made, and nothing else was done.
abbrev pub Made : Type 0 → (ℕ → Bool) → Bytes → Factory → Type 0
Made H alive id s =
    (t : Factory) × (sw : ℕ) × (out : List (Effect H)) × (get_or_create_swarm {H = H} alive id s
      ≡ done (t, sw, out))
    × (get_swarms t.swarm_reg ≡ get_swarms s.swarm_reg)
    × All Served t.swarm_reg
    × All IsNew out
    × (t.counts ≡ s.counts)

create_swarm-total :
    (H : Type 0) (id : Bytes) (nodes : List (Bytes × PeerAddress)) (s : Factory) {info : SwarmInfo}
    → nodes ≢ []
    → lookup id s.swarm_reg ≡ some info
    → create_swarm {H = H} id nodes s
      ≡ done (
        record s {
          swarm_reg = modify id (λ i. record i { swarm = some s.next_swarm }) s.swarm_reg;
          next_swarm = s.next_swarm + 1;
        },
        s.next_swarm,
        new_swarm s.next_swarm id nodes ∷ [],
      )
unfolding create_swarm
create_swarm-total H id [] s some_node found = elim (some_node refl) [ ]
create_swarm-total H id (node ∷ nodes) s some_node found =
    rw (set_swarm-found id s.next_swarm s.swarm_reg found) refl

get_nodes-found :
    (id : Bytes) (reg : SwarmRegistry) {info : SwarmInfo}
    → lookup id reg ≡ some info
    → get_nodes id reg ≡ info.nodes
unfolding get_nodes
get_nodes-found id reg found = rw (found, get_nodes) refl

create_swarm-gone :
    (H : Type 0) (alive : ℕ → Bool) (id : Bytes) (s : Factory)
    → lock alive (get_swarm id s.swarm_reg) ≡ none
    → get_or_create_swarm {H = H} alive id s ≡ create_swarm id (get_nodes id s.swarm_reg) s
unfolding get_or_create_swarm
create_swarm-gone H alive id s gone = rw (gone, get_or_create_swarm) refl

-- Where every swarm has a name and a node, a swarm of the list is found or made.
pub get_or_create_swarm-total :
    (H : Type 0) (alive : ℕ → Bool) (n : ℕ) (id : Bytes) (s : Factory)
    → All Served s.swarm_reg
    → nth n (get_swarms s.swarm_reg) ≡ done id
    → (is_empty id ≡ false) × Made H alive id s
unfolding get_or_create_swarm get_swarms get_nodes
get_or_create_swarm-total H alive n id s all e =
    let (info, found) = nth-keys_of n s.swarm_reg e in
    let (named, nodes) = All-lookup Served id s.swarm_reg all found in
    let made : Made H alive id s = elim (Option-cases (lock alive (get_swarm id s.swarm_reg))) [
      | inr (sw, locked) ↦ (s, sw, [], rw (locked, get_or_create_swarm) refl, refl, all, tt, refl)
      | inl gone ↦ (
        record s {
          swarm_reg = modify id (λ i. record i { swarm = some s.next_swarm }) s.swarm_reg;
          next_swarm = s.next_swarm + 1;
        },
        s.next_swarm,
        new_swarm s.next_swarm id info.nodes ∷ [],
        create_swarm-gone H alive id s gone
            ∙ ap (λ nodes. create_swarm id nodes s) (get_nodes-found id s.swarm_reg found)
            ∙ create_swarm-total H id info.nodes s nodes found,
        keys_of-modify id _ s.swarm_reg,
        modify-Served id s.next_swarm s.swarm_reg all,
        (tt, tt),
        refl,
      )
    ] in
    (named, made)
