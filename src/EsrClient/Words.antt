-- ===== src/EsrClient/Words.antt =====
-- The words of a contract's ABI, as an independent description of the texts of utils/esr_peer_info.cpp:
-- a number has 64 digits, and bytes are filled up to words with zeros.
use bzapi.Base.{
  ℕ, zero, suc, ◌≡◌, ◌≢◌, refl, sym, ap, ◌∙◌, subst, ◌+◌, ◌*◌, ◌/◌, ◌%◌, ◌^◌, ◌<◌, ◌≤◌, [], ◌∷◌,
  ◌++◌, false, some, length, All, All-append, arith,
}
use native.Mathlib.Nat.{pow-suc}
use bzapi.Base.Text.{Bytes}
use bzapi.Base.Decimal.{skip_space-visible}
use bzapi.Base.Outcome.{done}
use bzapi.EsrClient.Hex.{
  upper_digit, lower_digit, hex_value, string_to_hex, hex_to_char_string, digits_value, skip_0x,
  saturated, signed_hex, strtoul,
}

-- The last `width` digits of a number.
unfoldable pub word_digits : ℕ → ℕ → Bytes
word_digits zero n = []
word_digits (suc width) n = word_digits width (n / 16) ++ (lower_digit (n % 16) ∷ [])

abbrev pub word : ℕ → Bytes
word n = word_digits 64 n

abbrev pub IsByte : ℕ → Type 0
IsByte c = c < 256

abbrev pub IsHex : ℕ → Type 0
IsHex c = (d : ℕ) × (hex_value c ≡ some d)

hex_value-lower_digit : (d : ℕ) → d < 16 → hex_value (lower_digit d) ≡ some d
unfolding hex_value
hex_value-lower_digit d h = ground arith

hex_value-upper_digit : (d : ℕ) → d < 16 → hex_value (upper_digit d) ≡ some d
unfolding hex_value
hex_value-upper_digit d h = ground arith

length-snoc : (xs : Bytes) (x : ℕ) → length (xs ++ (x ∷ [])) ≡ suc (length xs)
length-snoc [] x = refl
length-snoc (y ∷ xs) x = ap suc (length-snoc xs x)

pub length-word_digits : (width n : ℕ) → length (word_digits width n) ≡ width
unfolding word_digits
length-word_digits zero n = refl
length-word_digits (suc width) n =
    length-snoc (word_digits width (n / 16)) _ ∙ ap suc (length-word_digits width (n / 16))

word_digits-IsHex : (width n : ℕ) → All IsHex (word_digits width n)
unfolding word_digits
word_digits-IsHex zero n = tt
word_digits-IsHex (suc width) n =
    All-append IsHex (word_digits width (n / 16)) _ (word_digits-IsHex width (n / 16))
      ((n % 16, hex_value-lower_digit (n % 16) (omega arith)), tt)

digits_value-append :
    (acc : ℕ) (xs ys : Bytes)
    → All IsHex xs
    → digits_value acc (xs ++ ys) ≡ digits_value (digits_value acc xs) ys
unfolding digits_value
digits_value-append acc [] ys hex = refl
digits_value-append acc (x ∷ xs) ys ((d, e), hex) =
    rw (e, digits_value) (digits_value-append (acc * 16 + d) xs ys hex)

-- `n` has `width` digits at most.
abbrev pub Fits : ℕ → ℕ → Type 0
Fits zero n = n ≡ 0
Fits (suc width) n = Fits width (n / 16)

digits_value-digit : (acc d : ℕ) → d < 16 → digits_value acc (lower_digit d ∷ []) ≡ acc * 16 + d
unfolding digits_value
digits_value-digit acc d h = rw (hex_value-lower_digit d h, digits_value) refl

digits_value-word_digits : (width n : ℕ) → Fits width n → digits_value 0 (word_digits width n) ≡ n
unfolding word_digits digits_value
digits_value-word_digits zero n fits = sym fits
digits_value-word_digits (suc width) n fits =
    digits_value-append 0 (word_digits width (n / 16)) _ (word_digits-IsHex width (n / 16))
    ∙ digits_value-digit (digits_value 0 (word_digits width (n / 16))) (n % 16) (omega arith)
    ∙ ap (λ v. v * 16 + n % 16) (digits_value-word_digits width (n / 16) fits)
    ∙ omega arith

pub Fits-step : (width n : ℕ) → n < 16 ^ width * 16 → n / 16 < 16 ^ width
Fits-step width n h = omega arith

pub Fits-lt : (width n : ℕ) → n < 16 ^ width → Fits width n
Fits-lt zero n h = omega arith
Fits-lt (suc width) n h =
    Fits-lt width (n / 16) (Fits-step width n (subst (λ p. n < p) (pow-suc 16 width) h))

-- A digit is no space, no sign and no `x`.
IsHex-visible : (c : ℕ) → IsHex c → (48 ≤ c) × (c ≢ 88) × (c ≢ 120)
unfolding hex_value
IsHex-visible c (d, e) = ground arith

skip_0x-IsHex : (line : Bytes) → All IsHex line → skip_0x line ≡ line
unfolding skip_0x
skip_0x-IsHex [] hex = refl
skip_0x-IsHex (c ∷ []) hex = refl
skip_0x-IsHex (c ∷ x ∷ []) hex = refl
skip_0x-IsHex (c ∷ x ∷ y ∷ cs) (first, (second, rest)) =
    let (lo, no_capital, no_small) = IsHex-visible x second in ground arith

strtoul-IsHex :
    (line : Bytes) → All IsHex line → strtoul line ≡ saturated false (digits_value 0 line)
unfolding strtoul signed_hex saturated
strtoul-IsHex [] hex = refl
strtoul-IsHex (c ∷ cs) (first, rest) =
    let (lo, no_capital, no_small) = IsHex-visible c first in
    ap signed_hex (skip_space-visible c cs (omega arith))
    ∙ signed_hex-digits c cs lo
    ∙ ap (λ l. saturated false (digits_value 0 l)) (skip_0x-IsHex (c ∷ cs) (first, rest))
  where
    signed_hex-digits :
        (c : ℕ) (cs : Bytes)
        → 48 ≤ c
        → signed_hex (c ∷ cs) ≡ saturated false (digits_value 0 (skip_0x (c ∷ cs)))
    signed_hex-digits c cs h = ground arith

-- What `strtoul` reads in a word is the number.
pub strtoul-word : (n : ℕ) → n < 2 ^ 64 → strtoul (word n) ≡ n
unfolding saturated
strtoul-word n h =
    strtoul-IsHex (word n) (word_digits-IsHex 64 n)
    ∙ ap (saturated false) (digits_value-word_digits 64 n (Fits-lt 64 n (omega arith)))
    ∙ small n h
  where
    small : (n : ℕ) → n < 2 ^ 64 → saturated false n ≡ n
    small n h = ground arith

-- Bytes as pairs of digits.
unfoldable pub low_hex : Bytes → Bytes
low_hex [] = []
low_hex (c ∷ cs) = lower_digit (c / 16) ∷ lower_digit (c % 16) ∷ low_hex cs

pub hex_to_char_string-low_hex :
    (bytes : Bytes) → All IsByte bytes → hex_to_char_string (low_hex bytes) ≡ done bytes
unfolding low_hex hex_to_char_string
hex_to_char_string-low_hex [] small = refl
hex_to_char_string-low_hex (c ∷ cs) (this, others) =
    rw
      (
        hex_to_char_string-low_hex cs others,
        hex_value-lower_digit (c / 16) (omega arith),
        hex_value-lower_digit (c % 16) (omega arith),
      )
      (ap (λ b. done (b ∷ cs)) (omega arith))

-- `boost::unhex` reads what `boost::hex` writes.
pub hex_to_char_string-string_to_hex :
    (bytes : Bytes) → All IsByte bytes → hex_to_char_string (string_to_hex bytes) ≡ done bytes
unfolding string_to_hex hex_to_char_string
hex_to_char_string-string_to_hex [] small = refl
hex_to_char_string-string_to_hex (c ∷ cs) (this, others) =
    rw
      (
        hex_to_char_string-string_to_hex cs others,
        hex_value-upper_digit (c / 16) (omega arith),
        hex_value-upper_digit (c % 16) (omega arith),
      )
      (ap (λ b. done (b ∷ cs)) (omega arith))
