-- ===== src/Node/Backoff.antt =====
-- The back-off doubles up to its limit while the swarm is busy, and dies out when it is not.
use bzapi.Base.{
  ℕ, zero, suc, ◌*◌, ◌/◌, ◌^◌, ◌≤◌, ◌<◌, ◌≡◌, sym, ◌∙◌, ap, Bool, true, false, arith, min, leb,
  Bool-cases, inl, inr,
}
use native.Mathlib.Nat.{pow-suc, pow-succ'}
use bzapi.Node.{Node, max_backoff_time, back_off}

-- `back_off(value)`, called k times.
abbrev pub repeat : {C : Type 0} → ℕ → Bool → Node C → Node C
repeat zero value n = n
repeat (suc k) value n = repeat k value (back_off value n)

two_pow-pos : (k : ℕ) → 1 ≤ 2 ^ k
two_pow-pos zero = omega arith
two_pow-pos (suc k) = omega (arith, two_pow-pos k, pow-suc 2 k)

-- Cutting off before or after multiplying is the same.
double_min : (t p : ℕ) → 0 < t → 1 ≤ p → min (min (2 * t) 1024 * p) 1024 ≡ min (t * (2 * p)) 1024
double_min t p pos one = elim (Bool-cases (leb (2 * t) 1024)) [
  | inl small ↦ let e : min (2 * t) 1024 ≡ 2 * t = ground arith in rw e (omega arith)
  | inr big ↦
      let e : min (2 * t) 1024 ≡ 1024 = ground arith in
      let m : 513 * p ≤ t * p = grind arith in rw e (omega arith)
]

module _ {C : Type 0} where
  busy_from :
      (k : ℕ) (n : Node C)
      → 0 < n.backoff_time
      → n.backoff_time ≤ max_backoff_time
      → (repeat k true n).backoff_time ≡ min (n.backoff_time * 2 ^ k) max_backoff_time
  unfolding back_off
  busy_from zero n pos h = omega arith
  busy_from (suc k) n pos h =
      let t = n.backoff_time in
      let next : (back_off true n).backoff_time ≡ min (2 * t) 1024 = ground arith in
      let ih = busy_from k (back_off true n) (omega (arith, next)) (omega (arith, next)) in
      ih
      ∙ rw next (
          double_min t (2 ^ k) pos (two_pow-pos k)
          ∙ ap (λ (x : ℕ). min (t * x) 1024) (sym (pow-succ' 2 k)))

  -- From no waiting time on: after k + 1 busy answers in a row the waiting time is 2 ^ k milliseconds, or the limit.
  pub repeat_busy :
      (k : ℕ) (n : Node C)
      → n.backoff_time ≡ 0
      → (repeat (suc k) true n).backoff_time ≡ min (2 ^ k) max_backoff_time
  unfolding back_off
  repeat_busy k n h =
      let next : (back_off true n).backoff_time ≡ 1 = ground arith in
      busy_from k (back_off true n) (omega (arith, next)) (omega (arith, next))
      ∙ rw next (omega arith)

  halves : (k : ℕ) (n : Node C) → n.backoff_time < 2 ^ k → (repeat k false n).backoff_time ≡ 0
  unfolding back_off
  halves zero n h = omega arith
  halves (suc k) n h =
      let next : (back_off false n).backoff_time ≡ n.backoff_time / 2 = ground arith in
      halves k (back_off false n) (omega (arith, next, pow-suc 2 k))

  -- Eleven answers in a row that are not busy bring any waiting time within the
  -- limit back to none.
  pub repeat_idle :
      (n : Node C) → n.backoff_time ≤ max_backoff_time → (repeat 11 false n).backoff_time ≡ 0
  repeat_idle n h = halves 11 n (omega arith)
