-- ===== src/EsrClient/Hex.antt =====
-- utils/esr_peer_info.cpp: numbers and bytes in hexadecimal, as boost and the C++ library write and
-- read them.
use bzapi.Base.{
  ℕ, zero, suc, ◌+◌, ◌-◌, ◌*◌, ◌/◌, ◌%◌, ◌^◌, [], ◌∷◌, ◌++◌, Bool, true, false, ◌&&◌, ◌||◌, Option,
  none, some, if◌then◌else◌, ltb, leb, nat_beq, length,
}
use bzapi.Base.Text.{Bytes}
use bzapi.Base.Decimal.{skip_space}
use bzapi.Base.Outcome.{Outcome, done, threw, ◌>>=◌}

abbrev pub zeros : ℕ → Bytes
zeros zero = []
zeros (suc n) = b'0' ∷ zeros n

-- A digit in capital letters, and in small ones.
abbrev pub upper_digit : ℕ → ℕ
upper_digit d = if ltb d 10 then 48 + d else 55 + d

abbrev pub lower_digit : ℕ → ℕ
lower_digit d = if ltb d 10 then 48 + d else 87 + d

unfoldable pub hex_value : ℕ → Option ℕ
hex_value c =
    if leb 48 c && leb c 57
    then some (c - 48)
    else if leb 65 c && leb c 70
    then some (c - 55)
    else if leb 97 c && leb c 102
    then some (c - 87)
    else none

-- `boost::algorithm::hex` of bytes.
unfoldable pub string_to_hex : Bytes → Bytes
string_to_hex [] = []
string_to_hex (c ∷ cs) = upper_digit (c / 16) ∷ upper_digit (c % 16) ∷ string_to_hex cs

abbrev pub with_digits : Option ℕ → Option ℕ → Bytes → Outcome Bytes
with_digits (some high) (some low) rest = done ((high * 16 + low) ∷ rest)
with_digits high low rest = threw

-- `boost::algorithm::unhex`, which throws on an odd number of digits and on what is no digit.
unfoldable pub hex_to_char_string : Bytes → Outcome Bytes
hex_to_char_string [] = done []
hex_to_char_string (high ∷ []) = threw
hex_to_char_string (high ∷ low ∷ hex) = do
  rest ← hex_to_char_string hex
  with_digits (hex_value high) (hex_value low) rest

-- The digits of a number, without leading zeros; `fuel` is enough for numbers below 16 ^ fuel.
unfoldable pub hex_digits : ℕ → ℕ → Bytes
hex_digits zero n = []
hex_digits (suc fuel) n =
    let rest = hex_digits fuel (n / 16) in
    if ltb n 16 then lower_digit n ∷ [] else rest ++ (lower_digit (n % 16) ∷ [])

-- `setfill('0') << setw(width) << hex << (int) i`: an `int` has 32 bits, and is printed as unsigned.
unfoldable pub size_type_to_hex : ℕ → ℕ → Bytes
unfolding hex_digits
size_type_to_hex i width =
    let digits = hex_digits 8 (i % 2 ^ 32) in zeros (width - length digits) ++ digits

-- The number of the digits at the front.
unfoldable pub digits_value : ℕ → Bytes → ℕ
digits_value acc [] = acc
digits_value acc (c ∷ cs) = elim (hex_value c) [
  | none ↦ acc
  | some d ↦ digits_value (acc * 16 + d) cs
]

-- "0x" in front of a digit is passed over.
unfoldable pub skip_0x : Bytes → Bytes
skip_0x (z ∷ x ∷ d ∷ cs) =
    if nat_beq z b'0' && (nat_beq x b'x' || nat_beq x b'X')
    then elim (hex_value d) [ none ↦ z ∷ x ∷ d ∷ cs | some v ↦ d ∷ cs ]
    else z ∷ x ∷ d ∷ cs
skip_0x cs = cs

-- A number that does not fit 64 bits is the greatest that does.
unfoldable pub saturated : Bool → ℕ → ℕ
saturated negative v =
    if ltb v (2 ^ 64) then if negative then (2 ^ 64 - v) % 2 ^ 64 else v else 2 ^ 64 - 1

unfoldable pub signed_hex : Bytes → ℕ
unfolding saturated digits_value skip_0x
signed_hex [] = 0
signed_hex (c ∷ cs) =
    if nat_beq c b'-'
    then saturated true (digits_value 0 (skip_0x cs))
    else if nat_beq c b'+'
    then saturated false (digits_value 0 (skip_0x cs))
    else saturated false (digits_value 0 (skip_0x (c ∷ cs)))

-- `strtoul(s, nullptr, 16)`
unfoldable pub strtoul : Bytes → ℕ
unfolding signed_hex skip_space
strtoul s = signed_hex (skip_space s)
