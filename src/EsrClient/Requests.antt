-- ===== src/EsrClient/Requests.antt =====
-- utils/esr_peer_info.cpp: the texts of the calls are what the contract's ABI asks for.
use bzapi.Base.{
  if-true, if-false, ℕ, zero, suc, ◌≡◌, refl, sym, ap, ◌∙◌, ◌+◌, ◌-◌, ◌/◌, ◌%◌, ◌^◌, ◌<◌, ◌≤◌, [],
  ◌∷◌, ◌++◌, true, false, if◌then◌else◌, nat_beq, length, arith, Bool-cases, inl, inr, ◌⊎◌,
}
use mathlib.Core.List.{append_assoc, append-nil}
use bzapi.Base.Text.{Bytes, codes}
use bzapi.EsrClient.{
  pad_str_to_mod_64, data_string_for_get_peers, parameter_text, data_string_for_get_peer_info,
  get_peers_address, get_peer_info_signature,
}
use bzapi.EsrClient.Hex.{zeros, upper_digit, string_to_hex, hex_digits, size_type_to_hex}
use bzapi.EsrClient.Words.{word, word_digits, Fits-lt, length-word_digits}
use bzapi.EsrClient.Results.{nulls, length-append, length-nulls}
use bzapi.EsrClient.Digits.{plus, plus-add, zeros-word_digits, hex_digits-word_digits}

-- A string parameter: its size in a word, and its bytes, filled up to words with nulls.
abbrev pub fill : Bytes → ℕ
fill value = (32 - length value % 32) % 32

abbrev pub string_parameter : Bytes → Bytes
string_parameter value = word (length value) ++ string_to_hex (value ++ nulls (fill value))

length-string_to_hex : (value : Bytes) → length (string_to_hex value) ≡ length value + length value
unfolding string_to_hex
length-string_to_hex [] = refl
length-string_to_hex (c ∷ cs) = ground (arith, length-string_to_hex cs)

string_to_hex-append :
    (xs ys : Bytes) → string_to_hex (xs ++ ys) ≡ string_to_hex xs ++ string_to_hex ys
unfolding string_to_hex
string_to_hex-append [] ys = refl
string_to_hex-append (c ∷ xs) ys =
    ap (λ l. upper_digit (c / 16) ∷ upper_digit (c % 16) ∷ l) (string_to_hex-append xs ys)

string_to_hex-nulls : (n : ℕ) → string_to_hex (nulls n) ≡ zeros (n + n)
unfolding string_to_hex
string_to_hex-nulls zero = refl
string_to_hex-nulls (suc n) = ap (λ l. b'0' ∷ b'0' ∷ l) (string_to_hex-nulls n) ∙ ap zeros (twice n)
  where
    twice : (n : ℕ) → suc (suc (n + n)) ≡ suc n + suc n
    twice n = omega arith

fill-whole : (n : ℕ) → nat_beq ((n + n) % 64) 0 ≡ true → 0 ≡ (32 - n % 32) % 32 + (32 - n % 32) % 32
fill-whole n whole = ground arith

fill-part :
    (n : ℕ)
    → nat_beq ((n + n) % 64) 0 ≡ false
    → 64 - (n + n) % 64 ≡ (32 - n % 32) % 32 + (32 - n % 32) % 32
fill-part n part = ground arith

pad_str_to_mod_64-string_to_hex :
    (value : Bytes)
    → pad_str_to_mod_64 (string_to_hex value) ≡ string_to_hex (value ++ nulls (fill value))
unfolding pad_str_to_mod_64
pad_str_to_mod_64-string_to_hex value =
    let size = length value in
    ap
      (λ r.
        if nat_beq (r % 64) 0
        then string_to_hex value
        else string_to_hex value ++ zeros (64 - r % 64))
      (length-string_to_hex value)
    ∙ padding (Bool-cases (nat_beq ((size + size) % 64) 0))
    ∙ sym (
        string_to_hex-append value (nulls (fill value))
        ∙ ap (λ z. string_to_hex value ++ z) (string_to_hex-nulls (fill value)))
  where
    hex : Bytes
    hex = string_to_hex value

    padding :
        ((nat_beq ((length value + length value) % 64) 0 ≡ true)
          ⊎ (nat_beq ((length value + length value) % 64) 0 ≡ false))
        → (if nat_beq ((length value + length value) % 64) 0
            then hex
            else hex ++ zeros (64 - (length value + length value) % 64))
          ≡ hex ++ zeros (fill value + fill value)
    padding (inl whole) =
        if-true _ _ _ whole
        ∙ sym (append-nil hex)
        ∙ ap (λ n. hex ++ zeros n) (fill-whole (length value) whole)
    padding (inr part) =
        if-false _ _ _ part ∙ ap (λ n. hex ++ zeros n) (fill-part (length value) part)

size_type_to_hex-word_digits :
    (n width : ℕ) → n < 2 ^ 32 → 8 ≤ width → size_type_to_hex n width ≡ word_digits width n
unfolding size_type_to_hex
size_type_to_hex-word_digits n width small wide =
    let (w, e, fits, le) = hex_digits-word_digits 8 n (omega arith) (omega arith) in
    ap (λ m. zeros (width - length (hex_digits 8 m)) ++ hex_digits 8 m) (within n small)
    ∙ ap (λ l. zeros (width - length l) ++ l) e
    ∙ ap (λ m. zeros (width - m) ++ word_digits w n) (length-word_digits w n)
    ∙ zeros-word_digits (width - w) w n fits
    ∙ ap (λ m. word_digits m n) (plus-add (width - w) w ∙ omega arith)
  where
    within : (n : ℕ) → n < 2 ^ 32 → n % 2 ^ 32 ≡ n
    within n small = omega arith

parameter_text-string_parameter :
    (value : Bytes) → length value < 2 ^ 32 → parameter_text value ≡ string_parameter value
unfolding parameter_text
parameter_text-string_parameter value small =
    ap (λ l. l ++ pad_str_to_mod_64 (string_to_hex value))
      (size_type_to_hex-word_digits (length value) 64 small (omega arith))
    ∙ ap (λ l. word (length value) ++ l) (pad_str_to_mod_64-string_to_hex value)

length-string_parameter :
    (value : Bytes) → length (string_parameter value) / 2 ≡ 32 + (length value + fill value)
length-string_parameter value =
    ap (λ l. l / 2)
      (length-append (word (length value)) (string_to_hex (value ++ nulls (fill value)))
        ∙ ap (λ l. l + length (string_to_hex (value ++ nulls (fill value))))
            (length-word_digits 64 (length value))
        ∙ ap (λ l. 64 + l)
            (length-string_to_hex (value ++ nulls (fill value))
              ∙ ap (λ l. l + l)
                  (length-append value (nulls (fill value))
                    ∙ ap (λ l. length value + l) (length-nulls (fill value)))))
    ∙ half (length value + fill value)
  where
    half : (n : ℕ) → (64 + (n + n)) / 2 ≡ 32 + n
    half n = omega arith

-- The zeros that fill up one part begin the word of the next.
shifted :
    (rest : Bytes)
    → codes "0x"
        ++ (pad_str_to_mod_64 get_peers_address ++ (pad_str_to_mod_64 (codes "00000020") ++ rest))
      ≡ codes "0x" ++ (get_peers_address ++ (word 32 ++ (zeros 56 ++ rest)))
unfolding pad_str_to_mod_64 word_digits
shifted rest = refl

-- For a swarm id shorter than 2 ^ 32 bytes, the text of the call is the function's selector, the place
-- of the parameter (after one word) and the parameter as the contract's ABI writes a string: although
-- the code fills up each of its parts to a multiple of 64 digits at the wrong end.
pub data_string_for_get_peers-string_parameter :
    (swarm_id : Bytes)
    → length swarm_id < 2 ^ 32
    → data_string_for_get_peers swarm_id
      ≡ codes "0x" ++ (get_peers_address ++ (word 32 ++ string_parameter swarm_id))
unfolding data_string_for_get_peers plus
data_string_for_get_peers-string_parameter swarm_id small =
    let n = length swarm_id in
    let hex = string_to_hex (swarm_id ++ nulls (fill swarm_id)) in
    ap
      (λ l.
        codes "0x"
        ++ (pad_str_to_mod_64 get_peers_address
            ++ (pad_str_to_mod_64 (codes "00000020")
                ++ (l ++ pad_str_to_mod_64 (string_to_hex swarm_id)))))
      (size_type_to_hex-word_digits n 8 small (omega arith))
    ∙ ap
        (λ l.
          codes "0x"
          ++ (pad_str_to_mod_64 get_peers_address
              ++ (pad_str_to_mod_64 (codes "00000020") ++ (word_digits 8 n ++ l))))
        (pad_str_to_mod_64-string_to_hex swarm_id)
    ∙ shifted (word_digits 8 n ++ hex)
    ∙ ap (λ l. codes "0x" ++ (get_peers_address ++ (word 32 ++ l)))
        (sym (append_assoc (zeros 56) (word_digits 8 n) hex)
          ∙ ap (λ l. l ++ hex) (zeros-word_digits 56 8 n (Fits-lt 8 n (omega arith))))

-- For ids shorter than 2 ^ 31 bytes, the text of the call is the function's selector, the places of
-- the two parameters and the parameters, as the contract's ABI writes strings.
pub data_string_for_get_peer_info-string_parameter :
    (swarm_id peer_id : Bytes)
    → length swarm_id < 2 ^ 31
    → length peer_id < 2 ^ 31
    → data_string_for_get_peer_info swarm_id peer_id
      ≡ get_peer_info_signature
        ++ (word 64
            ++ (word (96 + (length swarm_id + fill swarm_id))
                ++ (string_parameter swarm_id ++ string_parameter peer_id)))
unfolding data_string_for_get_peer_info
data_string_for_get_peer_info-string_parameter swarm_id peer_id small1 small2 =
    let a = string_parameter swarm_id in
    let b = string_parameter peer_id in
    let head = λ (x : Bytes) (y : Bytes).
      (get_peer_info_signature
        ++ (size_type_to_hex 64 64 ++ size_type_to_hex (64 + length x / 2) 64))
      ++ (x ++ y) in
    ap (λ x. head x (parameter_text peer_id))
      (parameter_text-string_parameter swarm_id (omega arith))
    ∙ ap (λ y. head a y) (parameter_text-string_parameter peer_id (omega arith))
    ∙ ap
        (λ w.
          (get_peer_info_signature ++ (w ++ size_type_to_hex (64 + length a / 2) 64)) ++ (a ++ b))
        (size_type_to_hex-word_digits 64 64 (omega arith) (omega arith))
    ∙ ap (λ w. (get_peer_info_signature ++ (word 64 ++ w)) ++ (a ++ b))
        (ap (λ m. size_type_to_hex (64 + m) 64) (length-string_parameter swarm_id)
          ∙ ap (λ m. size_type_to_hex m 64) (place (length swarm_id + fill swarm_id))
          ∙ size_type_to_hex-word_digits (96 + (length swarm_id + fill swarm_id)) 64 (omega arith)
              (omega arith))
    ∙ append_assoc get_peer_info_signature
        (word 64 ++ word (96 + (length swarm_id + fill swarm_id))) (a ++ b)
    ∙ ap (λ l. get_peer_info_signature ++ l)
        (append_assoc (word 64) (word (96 + (length swarm_id + fill swarm_id))) (a ++ b))
  where
    place : (n : ℕ) → 64 + (32 + n) ≡ 96 + n
    place n = omega arith
