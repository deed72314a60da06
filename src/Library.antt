-- ===== src/Library.antt =====
-- library/library.cpp: the entry points. The library's global variables are a record; an `Attempt` says
-- how a call ends and what it leaves them like. The JSON texts are objects (Database), and the calls of
-- the swarm factory are composed with its model.
pub mod Endpoint
pub mod Lifecycle
pub mod Calls
pub mod Logging
pub mod Reachable
use bzapi.Base.{
  ℕ, zero, suc, ◌+◌, ◌-◌, List, [], ◌∷◌, ◌++◌, Bool, true, false, not, ◌&&◌, Option, none, some,
  if◌then◌else◌, take, drop, nat_beq, list_beq,
}
use bzapi.Base.Text.{Bytes, codes}
use bzapi.Base.Outcome.{Outcome, done, threw, undefined, ◌>>=◌}
use bzapi.Messages.{
  PeerAddress, DbError, success, uninitialized, connection_error, database_error, timeout_error,
  already_exists, no_space, no_database,
}
use bzapi.Database.{Json, Object, Completion, ready, failed, result_one, error_code}
use bzapi.SwarmFactory.{Factory, Effect, caller, initialize_nodes, has_db, create_db}
use bzapi.SwarmFactory.Discovery.{Esr, initialize_esr}

abbrev pub default_timeout : ℕ
default_timeout = 30

-- `error_val`: an `int`, of which only -1 is negative.
pub data ErrorVal : Type 0 where
  minus_one : ErrorVal
  code : ℕ → ErrorVal

-- `io_thread` says whether there is a thread that was not joined.
pub record Library : Type 0 where
  pub initialized : Bool
  pub io_thread : Bool
  pub factory : Option Factory
  pub error_str : Bytes
  pub error_val : ErrorVal
  pub api_timeout : ℕ

abbrev pub fresh : Library
fresh = record {
  initialized = false;
  io_thread = false;
  factory = none;
  error_str = codes "Not Initialized";
  error_val = minus_one;
  api_timeout = default_timeout;
}

-- A call returns, or throws, or ends the process.
pub data Attempt {ℓ} (A : Type ℓ) : Type ℓ where
  returned : A → Library → Attempt A
  raised : Library → Attempt A
  aborted : Attempt A

abbrev pub then_try : {A B : Type 0} → Attempt A → (A → Library → Attempt B) → Attempt B
then_try (returned a l) f = f a l
then_try (raised l) f = raised l
then_try aborted f = aborted

-- What the library uses of others: a `lexical_cast` to 16 bits and the ESR.
pub record Outside : Type 0 where
  pub lexical_cast : Bytes → Option ℕ
  pub esr : Esr

pub do_bad_endpoint : {A : Type 0} → Library → Attempt A
do_bad_endpoint l = raised (record l { error_str = codes "Bad Endpoint"; error_val = minus_one })

-- The text in front of the first colon, and what follows it.
pub find_colon : Bytes → Option (Bytes × Bytes)
find_colon [] = none
find_colon (c ∷ cs) =
    let rest = find_colon cs in
    if nat_beq c b':'
    then some ([], cs)
    else elim rest [ none ↦ none | some (addr, port) ↦ some (c ∷ addr, port) ]

-- `c_str()`, up to the first null.
pub c_str : Bytes → Bytes
c_str [] = []
c_str (c ∷ cs) = let rest = c_str cs in if nat_beq c 0 then [] else c ∷ rest

pub parse_endpoint : Outside → Bytes → Library → Attempt (Bytes × ℕ)
unfolding find_colon do_bad_endpoint c_str
parse_endpoint o endpoint l =
    if list_beq (take 5 endpoint) (codes "ws://")
    then elim (find_colon (drop 5 endpoint)) [
      | none ↦ do_bad_endpoint l
      | some (addr, rest) ↦ elim (o.lexical_cast (c_str rest)) [
        | none ↦ do_bad_endpoint l
        | some port ↦ returned (addr, port) l
      ]
    ]
    else do_bad_endpoint l

-- A factory that is not initialized.
abbrev pub new_factory : Factory
new_factory = record {
  initialized = false;
  swarm_reg = [];
  swarm_dbs = [];
  counts = [];
  next_query = 0;
  next_swarm = 0;
}

-- A thread that was not joined ends the process when the new one takes its place. The private key
-- goes to `crypto`, whose constructor drops what `load_private_key` returns: a key that cannot be
-- loaded is not noticed here.
pub common_init : Bytes → Library → Attempt Factory
common_init private_key l =
    if l.io_thread
    then aborted
    else returned new_factory (record l {
      io_thread = true;
      factory = some new_factory;
      error_val = code 0;
      error_str = [];
    })

abbrev pub peer_at : Bytes × ℕ → PeerAddress
peer_at (host, port) = record { host = host; port = port; http_port = 0; name = []; uuid = [] }

-- The `try` block of the first `initialize`.
pub try_initialize : Outside → Bytes → Bytes → Bytes → Bytes → Library → Attempt Bool
unfolding common_init parse_endpoint initialize_nodes
try_initialize o private_key endpoint node_id swarm_id l =
    then_try (common_init private_key l) (λ f l1. then_try (parse_endpoint o endpoint l1) (λ ep l2.
      returned true (record l2 {
        factory = some (initialize_nodes swarm_id ((node_id, peer_at ep) ∷ []) f);
        initialized = true;
      })))

-- The `catch` clauses of the first `initialize`: the thread is joined.
abbrev pub join_on_error : Attempt Bool → Attempt Bool
join_on_error (raised l) = returned false (record l { io_thread = false })
join_on_error a = a

pub initialize : Outside → Bytes → Bytes → Bytes → Bytes → Library → Attempt Bool
unfolding try_initialize
initialize o private_key endpoint node_id swarm_id l =
    let tried = join_on_error (try_initialize o private_key endpoint node_id swarm_id l) in
    if l.initialized then returned false l else tried

abbrev pub of_outcome : Outcome Factory → Library → Attempt Bool
of_outcome (done f) l = returned true (record l { factory = some f; initialized = true })
of_outcome threw l = raised l
of_outcome undefined l = aborted

abbrev pub return_on_error : Attempt Bool → Attempt Bool
return_on_error (raised l) = returned false l
return_on_error a = a

-- The second `initialize`, with the ESR.
unfoldable pub initialize_by_esr : Outside → Bytes → Bytes → Bytes → Library → Attempt Bool
unfolding common_init initialize_esr
initialize_by_esr o private_key esr_address url l =
    let tried = return_on_error (
      then_try (common_init private_key l)
        (λ f l1. of_outcome (initialize_esr o.esr esr_address url (λ sw. false) f) l1)) in
    if l.initialized then returned false l else tried

unfoldable pub terminate : Library → Library
terminate l =
    if l.initialized
    then record l {
      initialized = false;
      io_thread = false;
      factory = none;
      error_str = codes "Not Initialized";
      error_val = minus_one;
    }
    else l

-- `get_error_str` of an error.
abbrev pub error_text : DbError → Bytes
error_text success = codes "Success"
error_text uninitialized = codes "bzapi uninitialized"
error_text connection_error = codes "Connection error"
error_text database_error = codes "Database error"
error_text timeout_error = codes "Timeout error"
error_text already_exists = codes "Database already exists"
error_text no_space = codes "No space"
error_text no_database = codes "No database"

unfoldable pub set_timeout : ℕ → Library → Library
set_timeout seconds l = record l { api_timeout = seconds }

-- What the library has asked the swarm factory for: the response (by its number) and the database.
pub data Asked : Type 0 where
  asked_has_db asked_create_db asked_open_db : ℕ → Bytes → Asked

-- What becomes of a factory's call: it is caught when it throws, and the caller gets no response.
abbrev pub caught :
    ℕ
    → Library
    → Outcome (Factory × List (Effect Asked))
    → Outcome (Library × Option ℕ × List (Effect Asked))
caught resp l (done (f, out)) = done (record l { factory = some f }, some resp, out)
caught resp l threw = done (l, none, [])
caught resp l undefined = undefined

-- A call where the library is initialized, and otherwise no response.
abbrev pub where_initialized :
    ℕ
    → (Factory → Outcome (Factory × List (Effect Asked)))
    → Library
    → Outcome (Library × Option ℕ × List (Effect Asked))
where_initialized resp ask l = elim l.factory [
  | none ↦ if l.initialized then undefined else done (l, none, [])
  | some f ↦
      let asked = caught resp l (ask f) in if l.initialized then asked else done (l, none, [])
]

module _ (alive : ℕ → Bool) (resp : ℕ) (uuid : Bytes) where
  unfoldable async_has_db : Library → Outcome (Library × Option ℕ × List (Effect Asked))
  unfolding has_db
  async_has_db = where_initialized resp (has_db alive uuid (caller (asked_has_db resp uuid)))

  unfoldable async_create_db :
      ℕ → Bool → Library → Outcome (Library × Option ℕ × List (Effect Asked))
  unfolding create_db
  async_create_db max_size random_evict =
      where_initialized resp
        (create_db alive uuid max_size random_evict (asked_create_db resp uuid))

  unfoldable async_open_db : Library → Outcome (Library × Option ℕ × List (Effect Asked))
  unfolding has_db
  async_open_db = where_initialized resp (has_db alive uuid (caller (asked_open_db resp uuid)))

-- What follows when the factory answers: the response is completed, or a database on a swarm is
-- opened first.
pub data Answered : Type 0 where
  completed : ℕ → Completion → Answered
  opens : ℕ → Bytes → ℕ → Answered

unfoldable pub answered : Asked → DbError → Option ℕ → Answered
answered (asked_has_db resp uuid) err sw = completed resp (
    ready (
      (codes "result", Json.number (elim sw [ none ↦ 0 | some s ↦ 1 ]))
      ∷ (codes "uuid", Json.text uuid)
      ∷ []))
answered (asked_create_db resp uuid) err (some sw) = opens resp uuid sw
answered (asked_create_db resp uuid) err none = completed resp (record {
  result = (codes "error", Json.text (error_text err)) ∷ (codes "uuid", Json.text uuid) ∷ [];
  error = error_code err;
})
answered (asked_open_db resp uuid) err (some sw) = opens resp uuid sw
answered (asked_open_db resp uuid) err none = completed resp (failed (error_text err) err)

-- The handler of `open`: an error code has a message. The response gets the database too, where there
-- is no error.
unfoldable pub opened : Asked → Option Bytes → Completion × Bool
opened asked (some message) = (failed message connection_error, false)
opened (asked_create_db resp uuid) none =
    (ready (result_one ∷ (codes "uuid", Json.text uuid) ∷ []), true)
opened asked none = (ready (result_one ∷ []), true)
