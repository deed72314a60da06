-- ===== src/EsrClient/Results.antt =====
-- utils/esr_peer_info.cpp: `parse_get_peers_result_to_vector` on the contract's ABI for `string[]`.
use bzapi.Base.{
  ℕ, zero, suc, ◌≡◌, refl, ap, ◌∙◌, ◌+◌, ◌<◌, ◌≤◌, List, [], ◌∷◌, ◌++◌, Bool, true, false,
  if◌then◌else◌, leb, length, All, arith,
}
use mathlib.Core.List.{append_assoc}
use bzapi.Base.Text.{Bytes, is_empty}
use bzapi.EsrClient.Replies.{
  lines_from, read_lines, trim_right_nulls, PeersState, peer_id_size, peer_id, Peers, going,
  take_id, read_peers, go_on, peers_loop,
}
use bzapi.EsrClient.Words.{word, IsByte, low_hex, hex_to_char_string-low_hex}

abbrev pub nulls : ℕ → Bytes
nulls zero = []
nulls (suc n) = 0 ∷ nulls n

-- The words of some bytes: each has 32, and the last is filled up with nulls. `part` is the word
-- begun, to which `room` bytes and one more can be added.
unfoldable pub string_words : ℕ → Bytes → Bytes → List Bytes
string_words room [] [] = []
string_words room (b ∷ part) [] = low_hex ((b ∷ part) ++ nulls (suc room)) ∷ []
string_words zero part (c ∷ cs) = low_hex (part ++ (c ∷ [])) ∷ string_words 31 [] cs
string_words (suc room) part (c ∷ cs) = string_words room (part ++ (c ∷ [])) cs

-- A string: its size and its words.
unfoldable pub strings_words : List Bytes → List Bytes
unfolding string_words
strings_words [] = []
strings_words (id ∷ ids) = word (length id) ∷ (string_words 31 [] id ++ strings_words ids)

abbrev pub flatten : List Bytes → Bytes
flatten [] = []
flatten (w ∷ ws) = w ++ flatten ws

-- The ids that are not empty, without the nulls at their ends.
abbrev pub read_ids : List Bytes → List Bytes
read_ids [] = []
read_ids (id ∷ ids) = if is_empty id then read_ids ids else trim_right_nulls id ∷ read_ids ids

lines_from-line :
    (line : Bytes) (missing : ℕ) (begun rest : Bytes)
    → length line ≡ suc missing
    → lines_from missing begun (line ++ rest) ≡ (begun ++ line) ∷ lines_from 63 [] rest
unfolding lines_from
lines_from-line [] missing begun rest h = cc
lines_from-line (c ∷ []) zero begun rest h = refl
lines_from-line (c ∷ d ∷ line) zero begun rest h = cc
lines_from-line (c ∷ line) (suc missing) begun rest h =
    lines_from-line line missing (begun ++ (c ∷ [])) rest (omega arith)
    ∙ ap (λ l. l ∷ lines_from 63 [] rest) (append_assoc begun (c ∷ []) line)

pub lines_from-flatten :
    (ws : List Bytes) → All (λ w. length w ≡ 64) ws → read_lines (flatten ws) ≡ ws
unfolding lines_from
lines_from-flatten [] full = refl
lines_from-flatten (w ∷ ws) (this, others) =
    lines_from-line w 63 [] (flatten ws) this ∙ ap (◌∷◌ w) (lines_from-flatten ws others)

pub trim_right_nulls-nulls :
    (id : Bytes) (n : ℕ) → trim_right_nulls (id ++ nulls n) ≡ trim_right_nulls id
unfolding trim_right_nulls
trim_right_nulls-nulls [] zero = refl
trim_right_nulls-nulls [] (suc n) = rw (trim_right_nulls-nulls [] n, trim_right_nulls) refl
trim_right_nulls-nulls (c ∷ id) n = rw (trim_right_nulls-nulls id n, trim_right_nulls) refl

pub length-append : (xs ys : Bytes) → length (xs ++ ys) ≡ length xs + length ys
length-append [] ys = omega arith
length-append (x ∷ xs) ys = ground (arith, length-append xs ys)

pub length-nulls : (n : ℕ) → length (nulls n) ≡ n
length-nulls zero = refl
length-nulls (suc n) = ap suc (length-nulls n)

length-low_hex : (bytes : Bytes) → length (low_hex bytes) ≡ length bytes + length bytes
unfolding low_hex
length-low_hex [] = refl
length-low_hex (c ∷ cs) = ground (arith, length-low_hex cs)

pub length-word : (xs ys : Bytes) → length xs + length ys ≡ 32 → length (low_hex (xs ++ ys)) ≡ 64
length-word xs ys h = length-low_hex (xs ++ ys) ∙ rw (length-append xs ys) (omega arith)

pub string_words-full :
    (room : ℕ) (part cs : Bytes)
    → length part + room ≡ 31
    → All (λ w. length w ≡ 64) (string_words room part cs)
unfolding string_words
string_words-full room [] [] h = tt
string_words-full room (b ∷ part) [] h =
    (length-word (b ∷ part) (nulls (suc room)) (rw (length-nulls room) (omega arith)), tt)
string_words-full zero part (c ∷ cs) h =
    (length-word part (c ∷ []) (omega arith), string_words-full 31 [] cs refl)
string_words-full (suc room) part (c ∷ cs) h =
    string_words-full room (part ++ (c ∷ [])) cs (rw (length-append part (c ∷ [])) (omega arith))

-- A state of the parser.
abbrev pub at : PeersState → ℕ → ℕ → Bytes → ℕ → List Bytes → Peers
at state count index id size results = record {
  state = state;
  node_count = count;
  index = index;
  id = id;
  peer_id_length = size;
  results = results;
}

-- The word of an id's bytes, in the state that reads them.
peers_loop-word :
    (bytes id : Bytes) (count index size : ℕ) (results : List Bytes) (rest : List Bytes)
    → All IsByte bytes
    → peers_loop (low_hex bytes ∷ rest) (at peer_id count index id size results)
      ≡ go_on
          (λ p. peers_loop rest p)
          (going (take_id (at peer_id count index (id ++ bytes) size results)))
unfolding peers_loop read_peers
peers_loop-word bytes id count index size results rest small =
    rw (hex_to_char_string-low_hex bytes small) refl

-- What it comes to when the id is complete, and when it is not.
pub peers_loop-last :
    (bytes id : Bytes) (count index size : ℕ) (results : List Bytes) (rest : List Bytes)
    → All IsByte bytes
    → size ≤ length (id ++ bytes)
    → peers_loop (low_hex bytes ∷ rest) (at peer_id count index id size results)
      ≡ peers_loop rest (
          at peer_id_size count
            (index + 1)
            []
            size
            (results ++ (trim_right_nulls (id ++ bytes) ∷ [])))
unfolding take_id
peers_loop-last bytes id count index size results rest small full =
    peers_loop-word bytes id count index size results rest small
    ∙ ap (λ p. peers_loop rest (record p { index = p.index + 1 }))
        (complete (leb size (length (id ++ bytes))) (ground arith))
  where
    complete :
        (b : Bool)
        → b ≡ true
        → (if b
            then at peer_id_size count index [] size
                (results ++ (trim_right_nulls (id ++ bytes) ∷ []))
            else at peer_id count index (id ++ bytes) size results)
          ≡ at peer_id_size count index [] size (results ++ (trim_right_nulls (id ++ bytes) ∷ []))
    complete true e = refl
    complete false e = cc

pub peers_loop-more :
    (bytes id : Bytes) (count index size : ℕ) (results : List Bytes) (rest : List Bytes)
    → All IsByte bytes
    → length (id ++ bytes) < size
    → peers_loop (low_hex bytes ∷ rest) (at peer_id count index id size results)
      ≡ peers_loop rest (at peer_id count (index + 1) (id ++ bytes) size results)
unfolding take_id
peers_loop-more bytes id count index size results rest small more =
    peers_loop-word bytes id count index size results rest small
    ∙ ap (λ p. peers_loop rest (record p { index = p.index + 1 }))
        (incomplete (leb size (length (id ++ bytes))) (ground arith))
  where
    incomplete :
        (b : Bool)
        → b ≡ false
        → (if b
            then at peer_id_size count index [] size
                (results ++ (trim_right_nulls (id ++ bytes) ∷ []))
            else at peer_id count index (id ++ bytes) size results)
          ≡ at peer_id count index (id ++ bytes) size results
    incomplete true e = cc
    incomplete false e = refl
