-- ===== src/EsrClient/PeerInfo.antt =====
-- utils/esr_peer_info.cpp: `parse_get_peer_info_result_to_peer_address` on the layout of words that it
-- expects.
use bzapi.Base.{
  ℕ, ◌≡◌, refl, ap, ◌∙◌, ◌+◌, ◌%◌, ◌^◌, ◌<◌, List, [], ◌∷◌, ◌++◌, length, All, All-append, arith,
}
use bzapi.Base.Text.{Bytes}
use bzapi.Base.Outcome.{Outcome, done, ◌>>=◌}
use bzapi.Messages.{PeerAddress}
use bzapi.EsrClient.Replies.{
  trim_right_nulls, node_count, node_name, finished, Info, read_info, info_loop,
  parse_get_peer_info_result_to_peer_address,
}
use bzapi.EsrClient.Words.{
  word, IsByte, low_hex, strtoul-word, length-word_digits, hex_to_char_string-low_hex,
}
use bzapi.EsrClient.Results.{
  nulls, string_words, flatten, lines_from-flatten, trim_right_nulls-nulls, length-nulls,
  string_words-full, length-word,
}
use bzapi.EsrClient.IdStrings.{nulls-IsByte}
use bzapi.EsrClient.PeerName.{IsText, trim_right_nulls-IsText, IsText-IsByte, at, info_loop-name}

info_loop-finished :
    (lines : List Bytes) (size port : ℕ) (host name : Bytes)
    → info_loop lines (at finished size port host name) ≡ done (at finished size port host name)
unfolding info_loop read_info
info_loop-finished [] size port host name = refl
info_loop-finished (line ∷ lines) size port host name = info_loop-finished lines size port host name

info_loop-head :
    (x y z : Bytes) (port host_size name_size : ℕ) (bytes : Bytes) (rest : List Bytes)
    → port < 2 ^ 64
    → host_size < 2 ^ 64
    → name_size < 2 ^ 64
    → All IsByte bytes
    → info_loop
        (x ∷ y ∷ z ∷ word port ∷ word host_size ∷ low_hex bytes ∷ word name_size ∷ rest)
        (at node_count 0 0 [] [])
      ≡ info_loop rest (at node_name name_size (port % 2 ^ 16) (trim_right_nulls bytes) [])
unfolding info_loop read_info
info_loop-head x y z port host_size name_size bytes rest p h n small =
    rw (strtoul-word port p, hex_to_char_string-low_hex bytes small, strtoul-word name_size n) refl

-- Three words, the port, the host in one word with its size before it, the name with its size before
-- it, and more words.
abbrev pub info_words : Bytes → Bytes → Bytes → ℕ → Bytes → ℕ → Bytes → List Bytes → List Bytes
info_words x y z port host room name more =
    x
    ∷ y
    ∷ z
    ∷ word port
    ∷ word (length host)
    ∷ low_hex (host ++ nulls room)
    ∷ word (length name)
    ∷ (string_words 31 [] name ++ more)

abbrev pub IsLine : Bytes → Type 0
IsLine w = length w ≡ 64

info_words-IsLine :
    (x y z : Bytes) (port : ℕ) (host : Bytes) (room : ℕ) (name : Bytes) (more : List Bytes)
    → All IsLine (x ∷ y ∷ z ∷ more)
    → length host + room ≡ 32
    → All IsLine (info_words x y z port host room name more)
info_words-IsLine x y z port host room name more (a, (b, (c, full))) fits = (
  a,
  (
    b,
    (
      c,
      (
        length-word_digits 64 port,
        (
          length-word_digits 64 (length host),
          (
            length-word host (nulls room) (rw (length-nulls room) fits),
            (
              length-word_digits 64 (length name),
              All-append IsLine (string_words 31 [] name) more (string_words-full 31 [] name refl)
                  full,
            ),
          ),
        ),
      ),
    ),
  ),
)

-- From an answer that holds, after three words, a port, a host of at most 32 bytes and a name that is
-- not empty, neither with null bytes, and then any more words, the parser takes the host, the last 16
-- bits of the port and the name.
pub parse_get_peer_info-words :
    (peer x y z : Bytes) (port : ℕ) (host : Bytes) (room : ℕ) (name : Bytes) (more : List Bytes)
    → All IsLine (x ∷ y ∷ z ∷ more)
    → port < 2 ^ 64
    → length host + room ≡ 32
    → All IsText host
    → All IsText name
    → 0 < length name
    → length name < 2 ^ 64
    → parse_get_peer_info_result_to_peer_address peer
        (flatten (info_words x y z port host room name more))
      ≡ done (record { host = host; port = port % 2 ^ 16; http_port = 0; name = name; uuid = peer })
unfolding parse_get_peer_info_result_to_peer_address
parse_get_peer_info-words peer x y z port host room name more full small fits t1 t2 some long =
    let bytes = All-append IsByte host (nulls room) (IsText-IsByte host t1) (nulls-IsByte room) in
    ap (λ ws. info_loop ws (at node_count 0 0 [] []) >>= take)
      (lines_from-flatten (info_words x y z port host room name more)
        (info_words-IsLine x y z port host room name more full fits))
    ∙ ap (λ o. o >>= take)
        (info_loop-head x y z port (length host) (length name) (host ++ nulls room) _ small
            (omega arith) long bytes
          ∙ info_loop-name 31 [] name (length name) (port % 2 ^ 16)
              (trim_right_nulls (host ++ nulls room)) [] more tt tt t2 (omega arith) (omega arith)
          ∙ info_loop-finished more (length name) (port % 2 ^ 16)
              (trim_right_nulls (host ++ nulls room)) name)
    ∙ ap
        (λ h.
          done (record { host = h; port = port % 2 ^ 16; http_port = 0; name = name; uuid = peer }))
        (trim_right_nulls-nulls host room ∙ trim_right_nulls-IsText host t1)
  where
    take : Info → Outcome PeerAddress
    take p =
        done (record { host = p.host; port = p.port; http_port = 0; name = p.name; uuid = peer })
