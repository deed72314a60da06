-- ===== src/SwarmFactory.antt =====
-- swarm/swarm_factory.cpp: the registry of swarms, where a database is looked for, and where a new one
-- goes. Swarm objects have numbers; `alive` says which of them a weak pointer still reaches. Requests
-- to the dispatcher and calls of callbacks are effects, and the dispatcher's answers are later events
-- (`HasReply`, `CreateReply`), with what their handlers have captured. `H` is the type of the callers'
-- callbacks.
pub mod Registry
pub mod Discovery
pub mod Answers
pub mod Queries
pub mod Creation
pub mod Served
pub mod Retries
pub mod Known
pub mod Kept
use bzapi.Base.{
  ℕ, zero, suc, ◌+◌, ◌-◌, ◌%◌, ◌^◌, List, [], ◌∷◌, ◌++◌, Bool, true, false, Option, none, some,
  if◌then◌else◌, ltb, nat_beq, length, min, nat_eq, list_eq,
}
use bzapi.Base.Text.{Bytes, is_empty}
use bzapi.Base.Map.{Map, lookup, insert}
use bzapi.Base.OrderedMap.{assign, keys_of}
use bzapi.Base.Outcome.{Outcome, done, undefined, ◌>>=◌}
use bzapi.Messages.{
  DbError, success, database_error, already_exists, no_space, no_database, PeerAddress,
}
use bzapi.SwarmFactory.Registry.{
  SwarmInfo, add_node, add_nodes, get_swarms, get_nodes, get_swarm, set_swarm,
}

abbrev pub max_retry : ℕ
max_retry = 5

-- A callback: the caller's, or the one that `create_db` gives to `has_db`.
pub data Callback (H : Type 0) : Type 0 where
  caller : H → Callback H
  creating : Bytes → ℕ → Bool → H → Callback H

-- What the handler of a `has_uuid` request has captured: the database, the swarm's name and number,
-- the shared count (by the number of its query) and the callback.
pub record HasReply (H : Type 0) : Type 0 where
  pub db_uuid : Bytes
  pub sw_id : Bytes
  pub sw : ℕ
  pub query : ℕ
  pub callback : Callback H

pub record CreateReply (H : Type 0) : Type 0 where
  pub db_uuid : Bytes
  pub max_size : ℕ
  pub random_evict : Bool
  pub sw_id : Bytes
  pub sw : ℕ
  pub retry : ℕ
  pub callback : H

-- `counts` holds the shared counts of the queries, `next_query` and `next_swarm` the next numbers.
pub record Factory : Type 0 where
  pub initialized : Bool
  pub swarm_reg : Map Bytes SwarmInfo
  pub swarm_dbs : Map Bytes Bytes
  pub counts : Map ℕ ℕ
  pub next_query : ℕ
  pub next_swarm : ℕ

pub data Effect (H : Type 0) : Type 0 where
  new_swarm : ℕ → Bytes → List (Bytes × PeerAddress) → Effect H
  has_uuid : ℕ → HasReply H → Effect H
  create_uuid : ℕ → CreateReply H → Effect H
  call : H → DbError → Option ℕ → Effect H

abbrev pub Step : Type 0 → Type 0
Step H = Outcome (Factory × List (Effect H))

-- Effects that come first.
abbrev pub preceded :
    {H : Type 0} → List (Effect H) → Factory × List (Effect H) → Factory × List (Effect H)
preceded first (s, out) = (s, first ++ out)

-- `initialize` with the nodes of one swarm.
unfoldable pub initialize_nodes : Bytes → List (Bytes × PeerAddress) → Factory → Factory
unfolding add_nodes
initialize_nodes default_swarm nodes s = record s {
  initialized = true;
  swarm_reg = add_nodes default_swarm nodes [];
}

-- `lock()` of what the registry has for the swarm.
pub lock : (ℕ → Bool) → Option ℕ → Option ℕ
lock alive none = none
lock alive (some sw) = if alive sw then some sw else none

-- `sw_list[hint]`, whose assertion fails past the end.
pub nth : ℕ → List Bytes → Outcome Bytes
nth n [] = undefined
nth zero (x ∷ xs) = done x
nth (suc n) (x ∷ xs) = nth n xs

pub select_swarm_for_size : ℕ → ℕ → Factory → Outcome Bytes
unfolding nth get_swarms
select_swarm_for_size size hint s = nth hint (get_swarms s.swarm_reg)

-- The number of retries: `size_t` wraps around where there are no swarms.
pub retries : Factory → ℕ
unfolding get_swarms
retries s = min max_retry ((length (get_swarms s.swarm_reg) + (2 ^ 64 - 1)) % 2 ^ 64)

-- `(*count)--`, at 0 without end in 64 bits.
pub decrement : ℕ → Factory → Factory × ℕ
decrement query s =
    let n : ℕ = elim (lookup query s.counts) [ none ↦ 0 | some c ↦ (c + (2 ^ 64 - 1)) % 2 ^ 64 ] in
    (record s { counts = insert query n s.counts }, n)

module _ {H : Type 0} where
  -- A swarm that is made; the assertion that it has nodes fails on an empty list.
  pub create_swarm :
      Bytes → List (Bytes × PeerAddress) → Factory → Outcome (Factory × ℕ × List (Effect H))
  unfolding set_swarm
  create_swarm swarm_id [] s = undefined
  create_swarm swarm_id (node ∷ nodes) s = do
    reg ← set_swarm swarm_id s.next_swarm s.swarm_reg
    done (
      record s { swarm_reg = reg; next_swarm = s.next_swarm + 1 },
      s.next_swarm,
      new_swarm s.next_swarm swarm_id (node ∷ nodes) ∷ [],
    )

  pub get_or_create_swarm : (ℕ → Bool) → Bytes → Factory → Outcome (Factory × ℕ × List (Effect H))
  unfolding lock get_swarm get_nodes create_swarm
  get_or_create_swarm alive swarm_id s = elim (lock alive (get_swarm swarm_id s.swarm_reg)) [
    | some sw ↦ done (s, sw, [])
    | none ↦ create_swarm swarm_id (get_nodes swarm_id s.swarm_reg) s
  ]

  -- The callback of `select_swarm_for_size`.
  pub create_in : (ℕ → Bool) → Bytes → Bytes → ℕ → Bool → ℕ → H → Factory → Step H
  unfolding get_or_create_swarm
  create_in alive sw_id db_uuid max_size random_evict retry callback s =
      if is_empty sw_id then done (s, call callback no_space none ∷ []) else do
        r ← get_or_create_swarm alive sw_id s
        done (
          r.0,
          r.2
              ++ (create_uuid r.1 (record {
                db_uuid = db_uuid;
                max_size = max_size;
                random_evict = random_evict;
                sw_id = sw_id;
                sw = r.1;
                retry = retry;
                callback = callback;
              })
                  ∷ []),
        )

  pub do_create_db : (ℕ → Bool) → Bytes → ℕ → Bool → ℕ → H → Factory → Step H
  unfolding select_swarm_for_size create_in
  do_create_db alive db_uuid max_size random_evict retry callback s = do
    sw_id ← select_swarm_for_size max_size retry s
    create_in alive sw_id db_uuid max_size random_evict retry callback s

  -- The answer to a `create_uuid` request.
  pub create_replied : (ℕ → Bool) → CreateReply H → DbError → Factory → Step H
  unfolding do_create_db
  create_replied alive r success s = done (
    record s { swarm_dbs = assign r.db_uuid r.sw_id s.swarm_dbs },
    call r.callback success (some r.sw) ∷ [],
  )
  create_replied alive r err s = elim r.retry [
    | zero ↦ done (s, call r.callback err none ∷ [])
    | suc retry ↦ do_create_db alive r.db_uuid r.max_size r.random_evict retry r.callback s
  ]

  -- A callback is called with an error and, where there is one, a swarm.
  pub call_back : (ℕ → Bool) → Callback H → DbError → Option ℕ → Factory → Step H
  unfolding do_create_db retries
  call_back alive (caller h) err sw s = done (s, call h err sw ∷ [])
  call_back alive (creating db_uuid max_size random_evict h) err (some sw) s =
      done (s, call h already_exists none ∷ [])
  call_back alive (creating db_uuid max_size random_evict h) err none s =
      do_create_db alive db_uuid max_size random_evict (retries s) h s

  -- The loop over the swarms: each of them is asked.
  pub ask_swarms : (ℕ → Bool) → Bytes → ℕ → Callback H → List Bytes → Factory → Step H
  unfolding get_or_create_swarm
  ask_swarms alive uuid query callback [] s = done (s, [])
  ask_swarms alive uuid query callback (sw_id ∷ ids) s = do
    r ← get_or_create_swarm alive sw_id s
    rest ← ask_swarms alive uuid query callback ids r.0
    done (
        preceded
          (r.2
            ++ (has_uuid r.1 (record {
              db_uuid = uuid;
              sw_id = sw_id;
              sw = r.1;
              query = query;
              callback = callback;
            })
                ∷ []))
          rest)

  -- From the look-up of the database on; the second clause makes the shared count.
  pub find_db : (ℕ → Bool) → Bytes → Callback H → Option Bytes → Factory → Step H
  unfolding get_or_create_swarm call_back ask_swarms get_swarms
  find_db alive uuid callback (some sw_id) s = do
    r ← get_or_create_swarm alive sw_id s
    c ← call_back alive callback success (some r.1) r.0
    done (preceded r.2 c)
  find_db alive uuid callback none s =
      let swarms = get_swarms s.swarm_reg in
      ask_swarms alive uuid s.next_query callback swarms (record s {
        counts = insert s.next_query (length swarms) s.counts;
        next_query = s.next_query + 1;
      })

  unfoldable pub has_db : (ℕ → Bool) → Bytes → Callback H → Factory → Step H
  unfolding find_db
  has_db alive uuid callback s =
      if s.initialized then find_db alive uuid callback (lookup uuid s.swarm_dbs) s else undefined

  -- The answer to a `has_uuid` request.
  pub has_replied : (ℕ → Bool) → HasReply H → DbError → Factory → Step H
  unfolding decrement call_back
  has_replied alive r success s =
      let (s1, n) = decrement r.query s in
      call_back alive r.callback success (some r.sw)
        (record s1 { swarm_dbs = assign r.db_uuid r.sw_id s1.swarm_dbs })
  has_replied alive r err s =
      let (s1, n) = decrement r.query s in
      if nat_beq n 0 then call_back alive r.callback no_database none s1 else done (s1, [])

  unfoldable pub create_db : (ℕ → Bool) → Bytes → ℕ → Bool → H → Factory → Step H
  unfolding has_db
  create_db alive db_uuid max_size random_evict callback s =
      if s.initialized
      then has_db alive db_uuid (creating db_uuid max_size random_evict callback) s
      else undefined
