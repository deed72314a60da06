-- ===== src/Swarm/Report.antt =====
-- swarm/swarm.cpp: `get_status`, the state of a swarm for display. How the report becomes a JSON text is
-- the JSON library's affair.
use bzapi.Base.{ℕ, ◌/◌, ◌≡◌, refl, ap, List, [], some, none, Option, if◌then◌else◌, nat_beq, map}
use bzapi.Base.Text.{Bytes, codes}
use bzapi.Base.Outcome.{Outcome, done, ◌>>=◌}
use bzapi.Swarm.{NodeInfo, NodeMap, Swarm, StatusResponse, init_nodes, get_nodes}
use bzapi.Swarm.Usable.{IsUsable, init_nodes-usable, get_nodes-some}

pub record NodeReport : Type 0 where
  pub uuid : Bytes
  pub host : Bytes
  pub port : ℕ
  pub latency : ℕ
  pub last_send : Bytes
  pub last_receive : Bytes

pub record Report : Type 0 where
  pub swarm_version : Bytes
  pub swarm_git_commit : Bytes
  pub uptime : Bytes
  pub fastest_node : Bytes
  pub primary_node : Bytes
  pub nodes : List NodeReport

-- The fields of a status message that was never set are empty.
abbrev status_text : (StatusResponse → Bytes) → Option StatusResponse → Bytes
status_text field none = []
status_text field (some status) = field status

module _ (ctime : ℕ → Bytes) where
  -- `to_time_t` gives whole seconds, and 0 where nothing was sent or received.
  pub when : ℕ → Bytes
  when microseconds =
      let seconds = microseconds / 1000000 in
      if nat_beq seconds 0 then codes "never" else ctime seconds

  pub node_report : Bytes × NodeInfo → NodeReport
  unfolding when
  node_report (id, info) = record {
    uuid = id;
    host = info.host;
    port = info.port;
    latency = info.last_status_duration;
    last_send = when info.last_message_sent;
    last_receive = when info.last_message_received;
  }

  abbrev pub report : {H : Type 0} → Swarm H → NodeMap → Report
  unfolding node_report
  report s m = record {
    swarm_version = status_text (λ (r : StatusResponse). r.swarm_version) s.last_status;
    swarm_git_commit = status_text (λ (r : StatusResponse). r.swarm_git_commit) s.last_status;
    uptime = status_text (λ (r : StatusResponse). r.uptime) s.last_status;
    fastest_node = s.fastest_node;
    primary_node = s.primary_node;
    nodes = map node_report m;
  }

  unfoldable pub get_status : {H : Type 0} → Swarm H → Outcome Report
  unfolding get_nodes
  get_status s = do m ← get_nodes s; done (report s m)

  -- In a usable swarm whose nodes were made, the report is defined and has one entry for each node.
  pub get_status-usable :
      {H : Type 0} (s : Swarm H)
      → IsUsable s
      → (m : NodeMap) × (r : Report) × ((init_nodes s).0.nodes ≡ some m)
        × (get_status (init_nodes s).0 ≡ done r)
        × (r.nodes ≡ map node_report m)
  unfolding get_status report
  get_status-usable s usable =
      let (m, n, pos, has) = init_nodes-usable s usable in
      (
        m,
        report (init_nodes s).0 m,
        n,
        ap (λ o. o >>= λ m. done (report (init_nodes s).0 m)) (get_nodes-some (init_nodes s).0 m n),
        refl,
      )
