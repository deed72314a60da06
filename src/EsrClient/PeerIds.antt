-- ===== src/EsrClient/PeerIds.antt =====
-- utils/esr_peer_info.cpp: `parse_get_peers_result_to_vector` reads the contract's ABI for `string[]`.
use bzapi.Base.{
  if-true, if-false, ℕ, ◌≡◌, refl, ap, ◌∙◌, ◌+◌, ◌%◌, ◌^◌, ◌<◌, List, [], ◌∷◌, ◌++◌, if◌then◌else◌,
  nat_beq, length, All, All-append, arith,
}
use bzapi.Base.Text.{Bytes}
use bzapi.Base.Outcome.{done}
use bzapi.EsrClient.Replies.{
  header, header_info, peer_id_size, read_peers, peers_loop, parse_get_peers_result_to_vector,
}
use bzapi.EsrClient.Words.{word, strtoul-word, length-word_digits}
use bzapi.EsrClient.Results.{
  string_words, strings_words, flatten, read_ids, lines_from-flatten, string_words-full, at,
}
use bzapi.EsrClient.IdStrings.{IsString, peers_loop-strings}

-- A line of the offsets.
peers_loop-info :
    (line : Bytes) (count index : ℕ) (rest : List Bytes)
    → peers_loop (line ∷ rest) (at header_info count index [] 0 []) ≡ (
        if nat_beq index ((count + 1) % 2 ^ 64)
        then peers_loop rest (at peer_id_size count (index + 1) [] 0 [])
        else peers_loop rest (at header_info count (index + 1) [] 0 []))
unfolding peers_loop read_peers
peers_loop-info line count index rest = ground arith

peers_loop-offsets :
    (offset : Bytes) (offsets : List Bytes) (count index : ℕ) (rest : List Bytes)
    → index + length offsets ≡ count + 1
    → count + 1 < 2 ^ 64
    → (i : ℕ) × (peers_loop ((offset ∷ offsets) ++ rest) (at header_info count index [] 0 [])
        ≡ peers_loop rest (at peer_id_size count i [] 0 []))
peers_loop-offsets offset [] count index rest h small = (
  index + 1,
  peers_loop-info offset count index rest
      ∙ if-true _ _ (nat_beq index ((count + 1) % 2 ^ 64)) (ground arith),
)
peers_loop-offsets offset (next ∷ offsets) count index rest h small =
    let (i, e) = peers_loop-offsets next offsets count (index + 1) rest (omega arith) small in
    (
      i,
      peers_loop-info offset count index _
          ∙ if-false _ _ (nat_beq index ((count + 1) % 2 ^ 64)) (ground arith)
          ∙ e,
    )

peers_loop-header :
    (count : ℕ) (rest : List Bytes)
    → 0 < count
    → count < 2 ^ 64
    → peers_loop (word 32 ∷ word count ∷ rest) (at header 0 0 [] 0 [])
      ≡ peers_loop rest (at header_info count 2 [] 0 [])
unfolding peers_loop read_peers
peers_loop-header count rest some small = rw (strtoul-word count small) (ground arith)

peers_loop-empty :
    (rest : List Bytes) → peers_loop (word 32 ∷ word 0 ∷ rest) (at header 0 0 [] 0 []) ≡ done []
unfolding peers_loop read_peers
peers_loop-empty rest = rw (strtoul-word 0 (omega arith)) (ground arith)

-- The contract's ABI for `string[]`: where the array begins, the number of strings, the places of
-- the strings, and the strings.
abbrev pub string_array : List Bytes → List Bytes → Bytes
string_array offsets ids = flatten (word 32 ∷ word (length ids) ∷ (offsets ++ strings_words ids))

peers_loop-array :
    (offsets ids : List Bytes)
    → length offsets ≡ length ids
    → length ids + 1 < 2 ^ 64
    → All IsString ids
    → peers_loop
        (word 32 ∷ word (length ids) ∷ (offsets ++ strings_words ids))
        (at header 0 0 [] 0 [])
      ≡ done (read_ids ids)
peers_loop-array [] [] h small ok = peers_loop-empty (strings_words [])
peers_loop-array [] (id ∷ ids) h small ok = cc
peers_loop-array (o ∷ offsets) [] h small ok = cc
peers_loop-array (o ∷ offsets) (id ∷ ids) h small ok =
    let (i, e) =
      peers_loop-offsets o offsets (length (id ∷ ids)) 2 (strings_words (id ∷ ids)) (omega arith)
        small in
    peers_loop-header (length (id ∷ ids)) _ (omega arith) (omega arith)
    ∙ e
    ∙ peers_loop-strings (id ∷ ids) (length (id ∷ ids)) i 0 [] ok

strings_words-full : (ids : List Bytes) → All (λ w. length w ≡ 64) (strings_words ids)
unfolding strings_words
strings_words-full [] = tt
strings_words-full (id ∷ ids) = (
  length-word_digits 64 (length id),
  All-append (λ w. length w ≡ 64) (string_words 31 [] id) (strings_words ids)
      (string_words-full 31 [] id refl) (strings_words-full ids),
)

-- The parser of node and swarm lists reads what the contract's ABI makes of a list of strings: the
-- strings that are not empty, in their order, without the null bytes at their ends. The strings are
-- fewer than 2 ^ 64 - 1, each is shorter than 2 ^ 64 bytes, and the places of the strings may be any
-- words, one for each.
pub parse_get_peers-string_array :
    (offsets ids : List Bytes)
    → All (λ w. length w ≡ 64) offsets
    → length offsets ≡ length ids
    → length ids + 1 < 2 ^ 64
    → All IsString ids
    → parse_get_peers_result_to_vector (string_array offsets ids) ≡ done (read_ids ids)
unfolding parse_get_peers_result_to_vector
parse_get_peers-string_array offsets ids full same small ok =
    let words = word 32 ∷ word (length ids) ∷ (offsets ++ strings_words ids) in
    ap (λ ws. peers_loop ws (at header 0 0 [] 0 []))
      (lines_from-flatten words (
        length-word_digits 64 32,
        (
          length-word_digits 64 (length ids),
          All-append (λ w. length w ≡ 64) offsets (strings_words ids) full (strings_words-full ids),
        ),
      ))
    ∙ peers_loop-array offsets ids same small ok
