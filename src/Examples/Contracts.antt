-- ===== src/Examples/Contracts.antt =====
-- Answers of the ESR contract and calls of it.
use bzapi.Base.{◌≡◌, refl, List, [], ◌∷◌, ◌++◌, arith, ◌+◌}
use bzapi.Base.Text.{Bytes, codes}
use bzapi.Base.Outcome.{done}
use bzapi.EsrClient.{data_string_for_get_peer_info, get_peer_info_signature}
use bzapi.EsrClient.Replies.{
  parse_get_peers_result_to_vector, parse_get_peer_info_result_to_peer_address, trim_right_nulls,
}
use bzapi.EsrClient.Words.{word, length-word_digits}
use bzapi.EsrClient.Results.{flatten}
use bzapi.EsrClient.PeerIds.{string_array, parse_get_peers-string_array}
use bzapi.EsrClient.PeerInfo.{info_words, parse_get_peer_info-words}
use bzapi.EsrClient.Requests.{string_parameter, data_string_for_get_peer_info-string_parameter}

abbrev two_ids : List Bytes
two_ids = codes "a node's id that does not fit one word" ∷ [] ∷ codes "b" ∷ []

parse_get_peers-string_array_example :
    parse_get_peers_result_to_vector (string_array (word 96 ∷ word 192 ∷ word 224 ∷ []) two_ids)
    ≡ done (codes "a node's id that does not fit one word" ∷ codes "b" ∷ [])
unfolding trim_right_nulls
parse_get_peers-string_array_example =
    parse_get_peers-string_array (word 96 ∷ word 192 ∷ word 224 ∷ []) two_ids
      (length-word_digits 64 96, (length-word_digits 64 192, (length-word_digits 64 224, tt))) refl
      (omega arith)
      ((omega arith, omega arith), ((tt, omega arith), ((omega arith, omega arith), tt)))

parse_get_peer_info-words_example :
    parse_get_peer_info_result_to_peer_address (codes "n") (
      flatten
        (info_words (word 2) (word 128) (word 192) 65537 (codes "localhost") 23 (codes "node") []))
    ≡ done (record {
      host = codes "localhost";
      port = 1;
      http_port = 0;
      name = codes "node";
      uuid = codes "n";
    })
parse_get_peer_info-words_example =
    parse_get_peer_info-words (codes "n") (word 2) (word 128) (word 192) 65537 (codes "localhost")
      23 (codes "node") []
      (length-word_digits 64 2, (length-word_digits 64 128, (length-word_digits 64 192, tt)))
      (omega arith) refl (omega arith) (omega arith) (omega arith) (omega arith)

data_string_for_get_peer_info-string_parameter_example :
    data_string_for_get_peer_info (codes "BluzelleSwarm") (codes "node")
    ≡ get_peer_info_signature
      ++ (word 64
          ++ (word (96 + (13 + 19))
              ++ (string_parameter (codes "BluzelleSwarm") ++ string_parameter (codes "node"))))
data_string_for_get_peer_info-string_parameter_example =
    data_string_for_get_peer_info-string_parameter (codes "BluzelleSwarm") (codes "node")
      (omega arith) (omega arith)
