-- ===== src/Swarm/Majority.antt =====
-- swarm/swarm.cpp: how many nodes are an honest majority.
use bzapi.Base.{
  ℕ, suc, ◌+◌, ◌-◌, ◌*◌, ◌/◌, ◌%◌, ◌^◌, ◌≤◌, ◌<◌, ◌≡◌, refl, sym, ◌∙◌, some, length, list_eq, arith,
}
use bzapi.Base.Outcome.{done}
use bzapi.Swarm.{NodeMap, Swarm, majority, init_nodes, honest_majority_size}
use bzapi.Swarm.Usable.{IsUsable, init_nodes-usable, get_nodes-some}

size_t-pred : (n : ℕ) → 1 ≤ n → n < 2 ^ 64 → suc ((n + (2 ^ 64 - 1)) % 2 ^ 64) ≡ n
size_t-pred n pos bound = omega arith

-- With at least one node, `f` is the number of faults that the quorum is for: one node in three
-- may fail, less one. The quorum then holds an honest majority, and the honest nodes suffice.
majority-bounds :
    (n : ℕ)
    → 1 ≤ n
    → n < 2 ^ 64
    → (f : ℕ) × (3 * f + 1 ≤ n)
      × (n ≤ 3 * f + 3)
      × (majority n ≡ f + (f + 1))
      × (majority n + f ≤ n)
unfolding majority
majority-bounds n pos bound =
    let p = (n + (2 ^ 64 - 1)) % 2 ^ 64 in
    let q = size_t-pred n pos bound in (p / 3, omega arith, omega arith, omega arith, omega arith)

module _ {H : Type 0} where
  -- In a usable swarm whose `n` nodes are fewer than 2 ^ 64, `honest_majority_size` returns a
  -- quorum `q` that fits the largest `f` with `3 f + 1 ≤ n`: the responses of `f` faulty nodes are
  -- fewer than `q`, and the other nodes are at least `q`.
  pub honest_majority_size-bounds :
      (s : Swarm H) (m : NodeMap)
      → IsUsable s
      → (init_nodes s).0.nodes ≡ some m
      → length m < 2 ^ 64
      → (q : ℕ) × (f : ℕ) × (honest_majority_size s ≡ done ((init_nodes s).0, q))
        × (3 * f + 1 ≤ length m)
        × (length m ≤ 3 * f + 3)
        × (f < q)
        × (q + f ≤ length m)
  unfolding honest_majority_size
  honest_majority_size-bounds s m usable n bound =
      let (m', n', pos, h) = init_nodes-usable s usable in
      let same_map : some m' ≡ some m = sym n' ∙ n in
      let (f, low, high, q_is, enough) = majority-bounds (length m) (ground arith) bound in
      (
        majority (length m),
        f,
        rw (get_nodes-some (init_nodes s).0 m n) refl,
        low,
        high,
        omega arith,
        enough,
      )
