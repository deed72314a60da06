-- ===== src/Base/Decimal.antt =====
-- `std::to_string` of an unsigned number, and what its digits stand for.
use Prim.Native.Nat.{ℕ, zero, suc, ◌+◌, ◌-◌, ◌*◌, ◌/◌, ◌%◌, ◌^◌, ◌≤◌, ◌<◌}
use mathlib.Core.Path.{◌≡◌, refl, ap, sym, ◌∙◌}
use mathlib.Core.Logic.{inl, inr}
use mathlib.Core.Bool.{Bool, true, false, ◌&&◌, ◌||◌}
use mathlib.Core.Option
use mathlib.Core.Option.{Option, none, some}
use mathlib.Core.List.{[], ◌∷◌, ◌++◌}
use native.Mathlib.Omega.{arith}
use bzapi.Base.Tests.{ltb, leb, nat_beq, Bool-cases, if◌then◌else◌}
use bzapi.Base.Lists.{All, All-append}
use bzapi.Base.Text.{Bytes}

abbrev pub IsDigit : ℕ → Type 0
IsDigit c = (48 ≤ c) × (c ≤ 57)

-- The digits of `n`, highest first; `n < fuel` is enough.
digits : ℕ → ℕ → Bytes
digits zero n = []
digits (suc fuel) n = elim (ltb n 10) [
  | true ↦ (48 + n) ∷ []
  | false ↦ digits fuel (n / 10) ++ ((48 + n % 10) ∷ [])
]

unfoldable pub to_string : ℕ → Bytes
unfolding digits
to_string n = digits (suc n) n

-- The number that a run of digits adds to what was read before.
unfoldable pub from_digits : ℕ → Bytes → ℕ
from_digits acc [] = acc
from_digits acc (c ∷ cs) = from_digits (acc * 10 + (c - 48)) cs

from_digits-append :
    (acc : ℕ) (xs ys : Bytes) → from_digits acc (xs ++ ys) ≡ from_digits (from_digits acc xs) ys
unfolding from_digits
from_digits-append acc [] ys = refl
from_digits-append acc (x ∷ xs) ys = from_digits-append (acc * 10 + (x - 48)) xs ys

from_digits-digits : (fuel n : ℕ) → n < fuel → from_digits 0 (digits fuel n) ≡ n
unfolding digits
from_digits-digits zero n h = elim h [ ]
from_digits-digits (suc fuel) n h = elim (Bool-cases (ltb n 10)) [
  | inl small ↦ rw (small, digits) (unfold from_digits in omega arith)
  | inr big ↦
      rw (big, digits, from_digits-append 0 (digits fuel (n / 10)) ((48 + n % 10) ∷ []))
        (rw (from_digits-digits fuel (n / 10) (ground arith)) (unfold from_digits in omega arith))
]

digits-IsDigit : (fuel n : ℕ) → All IsDigit (digits fuel n)
unfolding digits
digits-IsDigit zero n = tt
digits-IsDigit (suc fuel) n = elim (Bool-cases (ltb n 10)) [
  | inl small ↦ rw (small, digits) (ground arith)
  | inr big ↦ rw (big, digits) (All-append IsDigit _ _ (digits-IsDigit fuel (n / 10)) (omega arith))
]

pub from_digits-to_string : (n : ℕ) → from_digits 0 (to_string n) ≡ n
unfolding to_string
from_digits-to_string n = from_digits-digits (suc n) n (omega arith)

pub to_string-IsDigit : (n : ℕ) → All IsDigit (to_string n)
unfolding to_string
to_string-IsDigit n = digits-IsDigit (suc n) n

pub to_string-injective : (m n : ℕ) → to_string m ≡ to_string n → m ≡ n
to_string-injective m n e =
    sym (from_digits-to_string m) ∙ ap (from_digits 0) e ∙ from_digits-to_string n

-- `isspace` in the C locale.
is_space : ℕ → Bool
is_space c = nat_beq c 32 || (leb 9 c && leb c 13)

is_digit : ℕ → Bool
is_digit c = leb 48 c && leb c 57

unfoldable pub skip_space : Bytes → Bytes
unfolding is_space
skip_space [] = []
skip_space (c ∷ cs) = let rest = skip_space cs in if is_space c then rest else c ∷ cs

pub skip_space-visible : (c : ℕ) (cs : Bytes) → 33 ≤ c → skip_space (c ∷ cs) ≡ c ∷ cs
unfolding is_space skip_space
skip_space-visible c cs h = ground arith

-- The longest run of digits at the front.
digit_run : Bytes → Bytes
unfolding is_digit
digit_run [] = []
digit_run (c ∷ cs) = let rest = digit_run cs in if is_digit c then c ∷ rest else []

-- The number of a non-empty run of digits, if it fits 64 bits.
run_value : Bytes → Option ℕ
run_value [] = none
run_value (d ∷ ds) = let v = from_digits 0 (d ∷ ds) in if ltb v (2 ^ 64) then some v else none

signed_value : Bytes → Option ℕ
signed_value [] = none
signed_value (c ∷ cs) =
    if nat_beq c b'-'
    then Option.map (λ v. (2 ^ 64 - v) % 2 ^ 64) (run_value (digit_run cs))
    else if nat_beq c b'+'
    then run_value (digit_run cs)
    else run_value (digit_run (c ∷ cs))

-- `std::stoull` in base 10: `none` where it throws. A minus sign negates in 64 bits.
unfoldable pub stoull : Bytes → Option ℕ
unfolding skip_space signed_value run_value digit_run
stoull s = signed_value (skip_space s)
