-- ===== src/Examples/Factories.antt =====
-- A factory that knows two swarms, of one node each.
use bzapi.Base.{
  ℕ, ◌≡◌, ◌≢◌, refl, List, [], ◌∷◌, Bool, true, false, none, arith, length, All, list_eq, list_beq,
  nat_eq,
}
use bzapi.Base.Text.{Bytes, codes}
use bzapi.Base.Map.{lookup}
use bzapi.Base.OrderedMap.{assign}
use bzapi.Base.Outcome.{done}
use bzapi.Messages.{PeerAddress, DbError, success, database_error, timeout_error}
use bzapi.SwarmFactory.{
  Factory, Effect, Callback, caller, creating, HasReply, CreateReply, Step, has_db,
  initialize_nodes,
}
use bzapi.SwarmFactory.Registry.{SwarmInfo, get_swarms, get_nodes, get_swarm}
use bzapi.SwarmFactory.Discovery.{Esr, update_swarm_registry}
use bzapi.SwarmFactory.Answers.{run_replies, told, requests}
use bzapi.SwarmFactory.Queries.{OneEach, has_db-run_replies}
use bzapi.SwarmFactory.Creation.{creation, create_db-run_replies}
use bzapi.SwarmFactory.Retries.{creations, calls, run_creations, run_creations-refused}
use bzapi.SwarmFactory.Known.{initialize_nodes-lookup}
use bzapi.SwarmFactory.Kept.{Kept, update_swarm_registry-Kept}
use bzapi.SwarmFactory.Served.{Served}

abbrev peer : ℕ → PeerAddress
peer port = record { host = codes "localhost"; port = port; http_port = 0; name = []; uuid = [] }

abbrev one_node : SwarmInfo
one_node = record { nodes = (codes "n", peer 1) ∷ []; swarm = none }

abbrev two_swarms : Factory
two_swarms = record {
  initialized = true;
  swarm_reg = (codes "x", one_node) ∷ (codes "y", one_node) ∷ [];
  swarm_dbs = [];
  counts = (7, 2) ∷ [];
  next_query = 8;
  next_swarm = 0;
}

abbrev none_alive : ℕ → Bool
none_alive sw = false

abbrev answer_to : ℕ → Callback ℕ → ℕ → HasReply ℕ
answer_to query callback sw = record {
  db_uuid = codes "db";
  sw_id = codes "x";
  sw = sw;
  query = query;
  callback = callback;
}

some_node : one_node.nodes ≢ []
some_node e = cc

two_swarms-Served : All Served two_swarms.swarm_reg
two_swarms-Served = ((refl, some_node), ((refl, some_node), tt))

abbrev found_late : List (HasReply ℕ × DbError)
found_late = (answer_to 8 (caller 5) 0, timeout_error) ∷ (answer_to 8 (caller 5) 1, success) ∷ []

has_db-run_replies_example :
    (asked : Factory) × (out : List (Effect ℕ)) × (answered : Factory) × (has_db none_alive
        (codes "db")
        (caller 5)
        two_swarms
      ≡ done (asked, out))
    × OneEach 8 (caller 5) (codes "x" ∷ codes "y" ∷ []) (requests out)
    × ◌≡◌ {A = Step ℕ}
        (run_replies none_alive found_late asked)
        (done (answered, told 5 found_late))
unfolding lookup get_swarms
has_db-run_replies_example =
    has_db-run_replies none_alive (codes "db") 5 two_swarms found_late refl two_swarms-Served refl
      (omega arith) refl ((refl, refl), ((refl, refl), tt))

abbrev creating_db : Callback ℕ
creating_db = creating (codes "db") 100 false 5

-- The first swarm has the database and the second does not.
abbrev found_first : List (HasReply ℕ × DbError)
found_first =
    (answer_to 7 creating_db 0, success) ∷ (answer_to 7 creating_db 1, database_error) ∷ []

create_db-run_replies_example :
    (t : Factory) × (run_replies none_alive found_first two_swarms
      ≡ creation none_alive (codes "db") 100 false 5 found_first t)
    × (t.swarm_reg ≡ two_swarms.swarm_reg)
unfolding lookup
create_db-run_replies_example =
    create_db-run_replies none_alive 7 (codes "db") 100 false 5 found_first two_swarms (omega arith)
      refl ((refl, refl), ((refl, refl), tt))

abbrev second_try : CreateReply ℕ
second_try = record {
  db_uuid = codes "db";
  max_size = 100;
  random_evict = false;
  sw_id = codes "y";
  sw = 0;
  retry = 1;
  callback = 5;
}

run_creations-refused_example :
    (t : Factory) × (out : List (Effect ℕ)) × (run_creations none_alive
        (timeout_error ∷ database_error ∷ [])
        (second_try ∷ [])
        two_swarms
      ≡ done (t, out))
    × (length (creations out) ≡ 1)
    × (calls out ≡ (5, database_error, none) ∷ [])
unfolding get_swarms
run_creations-refused_example =
    run_creations-refused none_alive second_try (timeout_error ∷ []) database_error [] two_swarms
      two_swarms-Served (omega arith) refl (λ e. cc, tt) (λ e. cc)

abbrev given : List (Bytes × PeerAddress)
given = (codes "n", peer 1) ∷ (codes "m", peer 2) ∷ (codes "n", peer 3) ∷ []

initialize_nodes-lookup_example :
    (lookup
        (codes "n")
        (get_nodes (codes "x") (initialize_nodes (codes "x") given two_swarms).swarm_reg)
      ≡ lookup (codes "n") given)
    × All Served (initialize_nodes (codes "x") given two_swarms).swarm_reg
initialize_nodes-lookup_example =
    initialize_nodes-lookup (codes "x") (codes "n") given two_swarms refl

-- An ESR that knows the swarm "x" alone, with one node.
abbrev small_esr : Esr
small_esr = record {
  get_swarm_ids = λ address url. done (codes "x" ∷ []);
  get_peer_ids = λ id address url. done (codes "m" ∷ []);
  get_peer_info = λ id node address url. done (peer 9);
}

abbrev renewed : Factory
renewed = record two_swarms {
  swarm_reg = (codes "x", record { nodes = (codes "m", peer 9) ∷ []; swarm = none }) ∷ [];
}

update_swarm_registry-Kept_example : All (Kept none_alive two_swarms.swarm_reg) renewed.swarm_reg
unfolding update_swarm_registry lookup get_swarm assign list_beq
update_swarm_registry-Kept_example =
    update_swarm_registry-Kept small_esr (codes "a") (codes "u") none_alive two_swarms
      {ids = codes "x" ∷ []} {t = renewed} refl refl refl (refl, tt) refl
