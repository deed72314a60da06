-- ===== src/Cli/Process/Exited.antt =====
-- bzapi-cli/main.cpp with library/library.cpp: the process exits with a code where `initialize` does
-- not fail.
use bzapi.Base.{ℕ, ◌≡◌, Bool, false}
use bzapi.Base.Text.{Bytes}
use bzapi.Database.Replies.{Operation}
use bzapi.Library.Lifecycle.{Joined}
use bzapi.Library.Logging.{Process}
use bzapi.Cli.Returns.{Returns}
use bzapi.Cli.Process.{Calls}

-- The thread is there exactly while the library is initialized, and then it is not there any more.
abbrev pub JoinedProcess : Process → Type 0
JoinedProcess p = Joined p.library

abbrev NoThread : Process → Type 0
NoThread p = p.library.io_thread ≡ false

-- The methods that need a swarm return, and leave the library's thread as it is.
pub record IsWorking {D : Type 0} (calls : Calls D) : Type 0 where
  pub open_db : (id : Bytes) → Returns JoinedProcess (calls.open_db id)
  pub create_db :
      (id : Bytes) (max_size : ℕ) (random_evict : Bool)
      → Returns JoinedProcess (calls.create_db id max_size random_evict)
  pub has_db : (id : Bytes) → Returns JoinedProcess (calls.has_db id)
  pub perform : (db : D) (op : Operation) → Returns JoinedProcess (calls.perform db op)
  pub swarm_status : (db : D) → Returns JoinedProcess (calls.swarm_status db)
