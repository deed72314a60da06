-- ===== src/EsrClient/Digits.antt =====
-- utils/esr_peer_info.cpp: the digits that `size_type_to_hex` writes are those of a word.
use bzapi.Base.{
  not_positive, ℕ, zero, suc, ◌≡◌, refl, sym, ap, ◌∙◌, subst, ◌+◌, ◌/◌, ◌%◌, ◌^◌, ◌<◌, ◌≤◌, [], ◌∷◌,
  ◌++◌, true, false, ltb, arith, Bool-cases, inl, inr,
}
use native.Mathlib.Nat.{pow-suc}
use bzapi.EsrClient.Hex.{zeros, lower_digit, hex_digits}
use bzapi.EsrClient.Words.{word_digits, Fits, Fits-step}

unfoldable pub plus : ℕ → ℕ → ℕ
plus zero k = k
plus (suc a) k = suc (plus a k)

pub plus-add : (a k : ℕ) → plus a k ≡ a + k
unfolding plus
plus-add zero k = omega arith
plus-add (suc a) k = ground (arith, plus-add a k)

Fits-more : (width n : ℕ) → Fits width n → Fits (suc width) n
Fits-more zero n h = omega arith
Fits-more (suc width) n h = Fits-more width (n / 16) h

-- A wider word begins with more zeros.
word_digits-more :
    (width n : ℕ) → Fits width n → word_digits (suc width) n ≡ b'0' ∷ word_digits width n
unfolding word_digits
word_digits-more zero n h = rw h refl
word_digits-more (suc width) n h =
    ap (λ l. l ++ (lower_digit (n % 16) ∷ [])) (word_digits-more width (n / 16) h)

Fits-plus : (a width n : ℕ) → Fits width n → Fits (plus a width) n
unfolding plus
Fits-plus zero width n h = h
Fits-plus (suc a) width n h = Fits-more (plus a width) n (Fits-plus a width n h)

pub zeros-word_digits :
    (a width n : ℕ) → Fits width n → zeros a ++ word_digits width n ≡ word_digits (plus a width) n
unfolding plus
zeros-word_digits zero width n h = refl
zeros-word_digits (suc a) width n h =
    ap (◌∷◌ b'0') (zeros-word_digits a width n h)
    ∙ sym (word_digits-more (plus a width) n (Fits-plus a width n h))

below : (n : ℕ) → ltb n 16 ≡ true → n ≡ n % 16
below n small = ground arith

fits_one : (n : ℕ) → ltb n 16 ≡ true → n / 16 ≡ 0
fits_one n small = ground arith

some_left : (fuel n : ℕ) → n < 16 ^ suc fuel → ltb n 16 ≡ false → 0 < fuel
some_left zero n h big = elim (not_positive (ground arith)) [ ]
some_left (suc fuel) n h big = omega arith

-- The digits of a number are those of the word that is just wide enough.
pub hex_digits-word_digits :
    (fuel n : ℕ)
    → n < 16 ^ fuel
    → 0 < fuel
    → (width : ℕ) × (hex_digits fuel n ≡ word_digits width n) × Fits width n × (width ≤ fuel)
unfolding hex_digits word_digits
hex_digits-word_digits zero n h some = elim (not_positive some) [ ]
hex_digits-word_digits (suc fuel) n h some = elim (Bool-cases (ltb n 16)) [
  | inl small ↦ (
    1,
    rw (small, hex_digits) (ap (λ d. lower_digit d ∷ []) (below n small)),
    fits_one n small,
    omega arith,
  )
  | inr big ↦
      let (width, e, fits, le) =
        hex_digits-word_digits fuel (n / 16)
          (Fits-step fuel n (subst (λ p. n < p) (pow-suc 16 fuel) h)) (some_left fuel n h big) in
      (
        suc width,
        rw (big, hex_digits) (ap (λ l. l ++ (lower_digit (n % 16) ∷ [])) e),
        fits,
        omega arith,
      )
]
