-- ===== src/EsrClient/Replies.antt =====
-- utils/esr_peer_info.cpp: the parsers of the answers, line by line. Warnings are left out.
use bzapi.Base.{
  ℕ, zero, suc, ◌+◌, ◌-◌, ◌%◌, ◌^◌, List, [], ◌∷◌, ◌++◌, if◌then◌else◌, leb, nat_beq, length,
}
use bzapi.Base.Text.{Bytes}
use bzapi.Base.Outcome.{Outcome, done, ◌>>=◌}
use bzapi.Messages.{PeerAddress}
use bzapi.EsrClient.Hex.{strtoul, hex_to_char_string}

-- The text in lines of `esr_response_line_length`; what does not fill a line is not read. `missing`
-- characters and one more are missing from the line begun.
unfoldable pub lines_from : ℕ → Bytes → Bytes → List Bytes
lines_from missing line [] = []
lines_from zero line (c ∷ cs) = (line ++ (c ∷ [])) ∷ lines_from 63 [] cs
lines_from (suc missing) line (c ∷ cs) = lines_from missing (line ++ (c ∷ [])) cs

abbrev pub read_lines : Bytes → List Bytes
read_lines text = lines_from 63 [] text

unfoldable pub trim_right_nulls : Bytes → Bytes
trim_right_nulls [] = []
trim_right_nulls (c ∷ cs) =
    let rest = trim_right_nulls cs in
    elim rest [ [] ↦ if nat_beq c 0 then [] else c ∷ [] | d ∷ ds ↦ c ∷ d ∷ ds ]

pub data PeersState : Type 0 where
  header header_swarm_size header_info peer_id_size peer_id : PeersState

pub record Peers : Type 0 where
  pub state : PeersState
  pub node_count : ℕ
  pub index : ℕ
  pub id : Bytes
  pub peer_id_length : ℕ
  pub results : List Bytes

-- The loop goes on, or the function returns.
pub data Progress : Type 0 where
  going : Peers → Progress
  returned : List Bytes → Progress

-- An id that is complete is one of the results.
unfoldable pub take_id : Peers → Peers
unfolding trim_right_nulls
take_id p =
    if leb p.peer_id_length (length p.id)
    then record p {
      results = p.results ++ (trim_right_nulls p.id ∷ []);
      id = [];
      state = peer_id_size;
    }
    else p

-- The `switch`, without the count of the lines.
unfoldable pub read_peers : PeersState → Bytes → Peers → Outcome Progress
unfolding strtoul hex_to_char_string take_id
read_peers header line p = done (going (record p { state = header_swarm_size }))
read_peers header_swarm_size line p =
    let count = strtoul line in
    if nat_beq count 0
    then done (returned p.results)
    else done (going (record p { state = header_info; node_count = count }))
read_peers header_info line p =
    if nat_beq p.index ((p.node_count + 1) % 2 ^ 64)
    then done (going (record p { state = peer_id_size }))
    else done (going p)
read_peers peer_id_size line p =
    let size = strtoul line in
    if nat_beq size 0
    then done (
        going
          (record p { peer_id_length = size; node_count = (p.node_count + (2 ^ 64 - 1)) % 2 ^ 64 }))
    else done (going (record p { peer_id_length = size; state = peer_id }))
read_peers peer_id line p = do
  part ← hex_to_char_string line
  done (going (take_id (record p { id = p.id ++ part })))

-- The next line's number is one more, unless the function returns.
abbrev pub go_on : (Peers → Outcome (List Bytes)) → Progress → Outcome (List Bytes)
go_on rest (returned results) = done results
go_on rest (going p) = rest (record p { index = p.index + 1 })

-- The loop over the lines.
unfoldable pub peers_loop : List Bytes → Peers → Outcome (List Bytes)
unfolding read_peers
peers_loop [] p = done p.results
peers_loop (line ∷ lines) p = do
  progress ← read_peers p.state line p
  go_on (λ p. peers_loop lines p) progress

unfoldable pub parse_get_peers_result_to_vector : Bytes → Outcome (List Bytes)
unfolding peers_loop lines_from
parse_get_peers_result_to_vector result = peers_loop (read_lines result) (record {
  state = header;
  node_count = 0;
  index = 0;
  id = [];
  peer_id_length = 0;
  results = [];
})

pub data InfoState : Type 0 where
  node_count na_0 na_1 node_port node_host_size node_host node_name_size node_name : InfoState
  finished : InfoState

pub record Info : Type 0 where
  pub state : InfoState
  pub text_size : ℕ
  pub port : ℕ
  pub host : Bytes
  pub name : Bytes

unfoldable pub read_info : InfoState → Bytes → Info → Outcome Info
unfolding strtoul hex_to_char_string trim_right_nulls
read_info node_count line p = done (record p { state = na_0 })
read_info na_0 line p = done (record p { state = na_1 })
read_info na_1 line p = done (record p { state = node_port })
read_info node_port line p =
    done (record p { port = strtoul line % 2 ^ 16; state = node_host_size })
read_info node_host_size line p = done (record p { text_size = strtoul line; state = node_host })
read_info node_host line p = do
  host ← hex_to_char_string line
  done (record p { host = trim_right_nulls host; state = node_name_size })
read_info node_name_size line p =
    done (record p { text_size = strtoul line; state = node_name; name = [] })
read_info node_name line p = do
  part ← hex_to_char_string line
  let name = trim_right_nulls (p.name ++ part) in
      done (record p {
        name = name;
        state = if nat_beq p.text_size (length name) then finished else node_name;
      })
read_info finished line p = done p

unfoldable pub info_loop : List Bytes → Info → Outcome Info
unfolding read_info
info_loop [] p = done p
info_loop (line ∷ lines) p = do next ← read_info p.state line p; info_loop lines next

unfoldable pub parse_get_peer_info_result_to_peer_address : Bytes → Bytes → Outcome PeerAddress
unfolding info_loop lines_from
parse_get_peer_info_result_to_peer_address peer result = do
  p ←
      info_loop (read_lines result)
        (record { state = node_count; text_size = 0; port = 0; host = []; name = [] })
  done (record { host = p.host; port = p.port; http_port = 0; name = p.name; uuid = peer })
