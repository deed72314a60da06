-- ===== src/Database/Status.antt =====
-- database/async_database_impl.cpp and database/database_impl.cpp: `swarm_status`, the report of the
-- swarm as a text. `styled` makes the text.
use bzapi.Base.{ℕ, ◌≡◌, ap}
use bzapi.Base.Text.{Bytes}
use bzapi.Base.Outcome.{Outcome, done, ◌>>=◌}
use bzapi.Swarm.{Swarm, init_nodes}
use bzapi.Swarm.Usable.{IsUsable}
use bzapi.Swarm.Report.{Report, get_status, get_status-usable}

module _ {H : Type 0} (ctime : ℕ → Bytes) (styled : Report → Bytes) where
  async_swarm_status : Swarm H → Outcome Bytes
  unfolding get_status
  async_swarm_status s = do report ← get_status ctime s; done (styled report)

  pub swarm_status : Swarm H → Outcome Bytes
  unfolding async_swarm_status
  swarm_status s = async_swarm_status s

  -- Where the nodes of a usable swarm were made, there is a text.
  swarm_status-usable :
      (s : Swarm H) → IsUsable s → (r : Report) × (swarm_status (init_nodes s).0 ≡ done (styled r))
  unfolding swarm_status async_swarm_status
  swarm_status-usable s usable =
      let (m, r, n, e, entries) = get_status-usable ctime s usable in
      (r, ap (λ o. o >>= λ report. done (styled report)) e)
