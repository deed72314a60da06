-- ===== src/Examples/Entries.antt =====
-- A library whose casts read decimal digits, and whose ESR cannot be reached.
use bzapi.Base.{
  ℕ, ◌≡◌, refl, List, [], ◌∷◌, ◌++◌, Bool, true, false, Option, none, some, if◌then◌else◌, ltb,
  arith,
}
use bzapi.Base.Text.{Bytes, codes}
use bzapi.Base.Decimal.{stoull, to_string, from_digits}
use bzapi.Base.Outcome.{threw}
use bzapi.Examples.{answer_of}
use bzapi.Database.{complete, released}
use bzapi.Database.Replies.{Operation, call_of}
use bzapi.Database.Sync.{sync_of, sync_of-complete}
use bzapi.Response.{returns}
use bzapi.Base.Outcome.{done}
use bzapi.Messages.{no_space}
use bzapi.Response.{Response, new_response, get_error}
use bzapi.Response.Signals.{IsUnsettled}
use bzapi.Database.{Json, Object, Completion}
use bzapi.Library.{answered}
use bzapi.Library.Calls.{JsonText, create_db, Ends, create_db-refused}
use bzapi.SwarmFactory.Discovery.{Esr}
use bzapi.Library.{
  Library, fresh, returned, aborted, Outside, parse_endpoint, initialize, initialize_by_esr, code,
  new_factory,
}
use bzapi.Library.Endpoint.{parse_endpoint-to_string}
use bzapi.Library.Lifecycle.{
  Call, initialize_call, terminate_call, run, Joined, run-Joined, initialize_by_esr-aborts,
}

abbrev read_port : Bytes → Option ℕ
read_port b = elim (stoull b) [ none ↦ none | some v ↦ if ltb v 65536 then some v else none ]

abbrev no_esr : Esr
no_esr = record {
  get_swarm_ids = λ address url. threw;
  get_peer_ids = λ id address url. threw;
  get_peer_info = λ id node address url. threw;
}

abbrev pub outside : Outside
outside = record { lexical_cast = read_port; esr = no_esr }

parse_endpoint-to_string_example :
    parse_endpoint outside (codes "ws://" ++ (codes "localhost" ++ (b':' ∷ to_string 50000))) fresh
    ≡ returned (codes "localhost", 50000) fresh
unfolding stoull to_string from_digits
parse_endpoint-to_string_example =
    parse_endpoint-to_string outside (codes "localhost") 50000 fresh refl (omega arith)

abbrev three_calls : List Call
three_calls =
    initialize_call (codes "key") (codes "http://localhost:1") (codes "n") (codes "x")
    ∷ terminate_call
    ∷ initialize_call (codes "key") (codes "ws://localhost:50000") (codes "n") (codes "x")
    ∷ []

run-Joined_example :
    (bs : List Bool) × (l1 : Library) × (run outside three_calls fresh ≡ returned bs l1) × Joined l1
run-Joined_example = run-Joined outside three_calls fresh refl

-- What the failed `initialize` leaves.
abbrev pub left_behind : Library
left_behind = record {
  initialized = false;
  io_thread = true;
  factory = some new_factory;
  error_str = [];
  error_val = code 0;
  api_timeout = 30;
}

initialize_by_esr-aborts_example :
    (initialize outside
        (codes "key")
        (codes "ws://localhost:50000")
        (codes "n")
        (codes "x")
        left_behind
      ≡ aborted)
    × (initialize_by_esr outside (codes "key") (codes "a") (codes "u") left_behind ≡ aborted)
unfolding initialize_by_esr
initialize_by_esr-aborts_example =
    initialize_by_esr-aborts outside (codes "key") (codes "a") (codes "u") fresh {l1 = left_behind}
      (codes "key") (codes "ws://localhost:50000") (codes "n") (codes "x") (codes "a") (codes "u")
      refl refl refl

-- A JSON library that knows one object.
abbrev one_text : Object → JsonText
one_text o = record { styled = λ object. codes "text"; parse = λ text. some o }

abbrev new_one : Response ℕ
new_one = new_response 40000

new_one-IsUnsettled : IsUnsettled new_one
new_one-IsUnsettled = record { no_port = refl; not_deferred = refl; no_value = refl }

abbrev running : Library
running = record fresh { initialized = true; io_thread = true }

abbrev refused : Completion
refused = record {
  result =
      (codes "error", Json.text (codes "No space")) ∷ (codes "uuid", Json.text (codes "db")) ∷ [];
  error = 6;
}

create_db-refused_example :
    Ends
      (one_text refused.result)
      (complete (λ o. codes "text") refused)
      (create_db (one_text refused.result))
      new_one
      running
      (some (record running { error_val = code 6; error_str = codes "No space" }, none))
    × Ends
        (one_text refused.result)
        (released (λ o. codes "text") refused)
        (create_db (one_text refused.result))
        new_one
        running
        (some (record running { error_val = code 0; error_str = codes "No space" }, none))
unfolding answered get_error
create_db-refused_example =
    create_db-refused (one_text refused.result) 3 (codes "db") no_space refused new_one running refl
      new_one-IsUnsettled refl refl refl

sync_of-complete_example :
    (r1 : Response ℕ) × (complete
        (λ o. codes "text")
        ((call_of (Operation.read (codes "key"))).reply (answer_of 5) none)
        new_one
      ≡ done r1)
    × (sync_of (Operation.read (codes "key")) r1
        ≡ (call_of (Operation.read (codes "key")), returns (codes "text")))
sync_of-complete_example =
    sync_of-complete (λ o. codes "text") (Operation.read (codes "key")) (answer_of 5) none new_one
      new_one-IsUnsettled refl
