-- ===== src/Dispatch/Handlers/Change.antt =====
-- What each event may do to the table of messages: nothing, replace an entry, drop one, or answer
-- one; and what holds between events.
use bzapi.Base.{
  ℕ, suc, ◌≤◌, ◌≡◌, ◌≢◌, subst, List, [], ◌∷◌, Bool, true, false, some, if◌then◌else◌, nat_beq,
  nat_eq, list_eq,
}
use bzapi.Base.Text.{Bytes}
use bzapi.Base.Map.{lookup, insert}
use bzapi.Base.Outcome.{Outcome, done, threw, undefined}
use bzapi.Messages.{Envelope, DatabaseResponse, Wire}
use bzapi.Dispatch.{
  Dispatch, MsgInfo, Effect, register_swarm_handler, send_request, call, database_response_of,
}
use bzapi.Dispatch.Qualify.{votes}
use bzapi.Dispatch.Handlers.{Step, outcome, store, forget, timeout_response}

-- How often the handler of message `n` is called.
abbrev pub calls : {H : Type 0} → ℕ → List (Effect H) → ℕ
calls n [] = 0
calls n (call m h r ∷ out) = if nat_beq m n then suc (calls n out) else calls n out
calls n (register_swarm_handler sw ∷ out) = calls n out
calls n (send_request sw env policy ∷ out) = calls n out

abbrev pub IsQuiet : {H : Type 0} → List (Effect H) → Type 0
IsQuiet out = (n : ℕ) → calls n out ≡ 0

-- What an event can bring: the responses that it collects for a message from a sender, and those
-- with which it answers a waiting message.
pub record Cause (H : Type 0) : Type 1 where
  pub Collects : ℕ → Bytes → DatabaseResponse → Type 0
  pub Answers : ℕ → MsgInfo H → DatabaseResponse → Type 0

abbrev pub nothing : {H : Type 0} → Cause H
nothing = record { Collects = λ n sender r. ⊥; Answers = λ n info r. ⊥ }

abbrev pub timed_out : {H : Type 0} → Cause H
timed_out = record { Collects = λ n sender r. ⊥; Answers = λ n info r. r ≡ timeout_response }

-- The response that an envelope holds, about message `n`.
abbrev pub ResponseOf : Wire → Envelope → ℕ → DatabaseResponse → Type 0
ResponseOf w env n r =
    (w.parse_response (database_response_of env.payload) ≡ some r) × (r.header.nonce ≡ n)

abbrev pub received : {H : Type 0} → Wire → Envelope → Cause H
received w env = record {
  Collects = λ n sender r. ResponseOf w env n r × (sender ≡ env.sender);
  Answers = λ n info r.
      ResponseOf w env n r
      × (info.responses_required ≤ votes w r (insert env.sender r info.responses));
}

-- A new version of a waiting message: a timer was set, or a response that did not suffice came in.
pub data Update {H : Type 0} (c : Cause H) (n : ℕ) (old new : MsgInfo H) : Type 0 where
  timer_set :
      new.handler ≡ old.handler
      → new.responses_required ≡ old.responses_required
      → new.responses ≡ old.responses
      → Update c n old new
  collected :
      (sender : Bytes) (r : DatabaseResponse)
      → new.handler ≡ old.handler
      → new.responses_required ≡ old.responses_required
      → new.responses ≡ insert sender r old.responses
      → c.Collects n sender r
      → old.responses_required ≢ 1
      → Update c n old new

pub data Change {H : Type 0} (c : Cause H) (s : Dispatch H)
    : Dispatch H → List (Effect H) → Type 0 where
  same : {out : List (Effect H)} → IsQuiet out → Change c s s out
  stored :
      (n : ℕ) (old new : MsgInfo H) {out : List (Effect H)}
      → lookup n s.messages ≡ some old
      → Update c n old new
      → IsQuiet out
      → Change c s (store s n new) out
  dropped :
      (n : ℕ) (old : MsgInfo H) {out : List (Effect H)}
      → lookup n s.messages ≡ some old
      → IsQuiet out
      → Change c s (forget s n) out
  answered :
      (n : ℕ) (old : MsgInfo H) (r : DatabaseResponse)
      → lookup n s.messages ≡ some old
      → c.Answers n old r
      → Change c s (forget s n) (call n old.handler r ∷ [])

abbrev pub Holds : {H R : Type 0} → (Dispatch H → List (Effect H) → Type 0) → Step H R → Type 0
Holds P (done (s, out, r)) = P s out
Holds P threw = Unit {0}
Holds P undefined = Unit {0}

-- If the step returns, the new state and the effects satisfy `P`.
pub record Ensures {H R : Type 0} (P : Dispatch H → List (Effect H) → Type 0) (m : Step H R)
    : Type 0 where
  pub held : Holds P m

abbrev pub Returns :
    {H : Type 0}
    → (Dispatch H → List (Effect H) → Type 0)
    → Outcome (Dispatch H × List (Effect H))
    → Type 0
Returns P (done (s, out)) = P s out
Returns P threw = Unit {0}
Returns P undefined = Unit {0}

module _ {H R : Type 0} {P : Dispatch H → List (Effect H) → Type 0} where
  pub Ensures-done :
      (s : Dispatch H) (out : List (Effect H)) (r : R) → P s out → Ensures P (done (s, out, r))
  Ensures-done s out r h = record { held = h }

  pub Ensures-undefined : Ensures {R = R} P undefined
  Ensures-undefined = record { held = tt }

  -- A test whose two branches are both ensured.
  pub Ensures-if :
      (b : Bool) (m k : Step H R) → Ensures P m → Ensures P k → Ensures P (if b then m else k)
  Ensures-if true m k hm hk = hm
  Ensures-if false m k hm hk = hk

  -- The returned value is dropped.
  pub Ensures-outcome :
      (m : Step H R) {s : Dispatch H} {out : List (Effect H)}
      → Ensures P m
      → outcome m ≡ done (s, out)
      → P s out
  Ensures-outcome (done (s', out', r)) h e = subst (Returns P) e h.held
  Ensures-outcome threw h e = cc
  Ensures-outcome undefined h e = cc
