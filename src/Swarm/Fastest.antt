-- ===== src/Swarm/Fastest.antt =====
-- swarm/swarm.cpp: the node that a status response makes the fastest.
use bzapi.Base.{
  ℕ, ◌≤◌, ◌≡◌, ◌∙◌, List, [], ◌∷◌, true, ◌&&◌, ltb, ◌==◌, list_eq, arith, Bool-cases, inl, inr, ◌⊎◌,
}
use bzapi.Base.Text.{Bytes}
use bzapi.Base.Map.{insert}
use bzapi.Swarm.{NodeInfo, NodeMap, Peer}
use bzapi.Swarm.Status.{Scan, peer_info, timed, scan_info, scan_peer, scan_peers, added_peer}
use bzapi.Swarm.Usable.{HasNodes, insert-HasNodes}

peer_info-has_node : (m : NodeMap) (peer : Peer) → (peer_info m peer).has_node ≡ true
unfolding peer_info
peer_info-has_node m peer = ground arith

-- No node of the map has a latency that is not zero and is less than this time.
abbrev pub IsLeast : ℕ → NodeMap → Type 0
IsLeast t [] = Unit {0}
IsLeast t ((id, info) ∷ m) =
    ((info.last_status_duration ≡ 0) ⊎ (t ≤ info.last_status_duration)) × IsLeast t m

IsLeast-le : (t u : ℕ) (m : NodeMap) → u ≤ t → IsLeast t m → IsLeast u m
IsLeast-le t u [] le h = tt
IsLeast-le t u ((id, info) ∷ m) le h = (ground arith, IsLeast-le t u m le h.1)

insert-IsLeast :
    (t : ℕ) (id : Bytes) (info : NodeInfo) (m : NodeMap)
    → (info.last_status_duration ≡ 0) ⊎ (t ≤ info.last_status_duration)
    → IsLeast t m
    → IsLeast t (insert id info m)
unfolding insert
insert-IsLeast t id info [] i h = (i, tt)
insert-IsLeast t id info ((j, v) ∷ m) i h = elim (Bool-cases (j == id)) [
  | inl here ↦ rw here (i, h.1)
  | inr other ↦ rw other (h.0, insert-IsLeast t id info m i h.1)
]

-- What the loop keeps.
abbrev pub ScanOk : Scan → Type 0
ScanOk r = HasNodes r.new_nodes × IsLeast r.fastest_time r.new_nodes

scan_info-ScanOk :
    (id : Bytes) (info : NodeInfo) (added : List Peer) (r : Scan)
    → info.has_node ≡ true
    → ScanOk r
    → ScanOk (scan_info id info added r)
unfolding scan_info
scan_info-ScanOk id info added r i (has, least) =
    elim (Bool-cases
      (ltb 0 info.last_status_duration && ltb info.last_status_duration r.fastest_time)) [
        | inl faster ↦ rw faster (
          insert-HasNodes id info r.new_nodes i has,
          insert-IsLeast info.last_status_duration id info r.new_nodes (inr (omega arith)) (
              IsLeast-le r.fastest_time info.last_status_duration r.new_nodes (ground arith) least),
        )
        | inr slower ↦ rw slower (
          insert-HasNodes id info r.new_nodes i has,
          insert-IsLeast r.fastest_time id info r.new_nodes (ground arith) least,
        )
      ]

timed-has_node :
    (uuid : Bytes) (duration : ℕ) (id : Bytes) (info : NodeInfo)
    → (timed uuid duration id info).has_node ≡ info.has_node
unfolding timed
timed-has_node uuid duration id info = ground arith

-- If each node of the map that the loop over the peers starts with is set, and no latency there that
-- is not zero is less than the fastest time so far, then both hold when the loop is done.
pub scan_peers-ScanOk :
    (m : NodeMap) (uuid : Bytes) (duration : ℕ) (ps : List Peer) (r : Scan)
    → ScanOk r
    → ScanOk (scan_peers m uuid duration ps r)
unfolding scan_peers scan_peer
scan_peers-ScanOk m uuid duration [] r ok = ok
scan_peers-ScanOk m uuid duration (p ∷ ps) r ok = scan_peers-ScanOk m uuid duration ps _ (
    scan_info-ScanOk p.uuid (timed uuid duration p.uuid (peer_info m p)) (added_peer m p) r
      (timed-has_node uuid duration p.uuid (peer_info m p) ∙ peer_info-has_node m p) ok)
