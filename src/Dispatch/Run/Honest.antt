-- ===== src/Dispatch/Run/Honest.antt =====
-- What a caller may believe when the responses under all names but some, `faulty`, are the same.
use bzapi.Base.{
  ℕ, ◌<◌, ◌≡◌, ◌⊎◌, inl, inr, subst, List, [], ◌∷◌, ◌++◌, true, false, some, arith, nat_beq, nat_eq,
  list_eq, ◌==◌, length, Bool-cases, All,
}
use bzapi.Base.Text.{Bytes}
use bzapi.Base.Map.{Map, lookup, insert, Distinct, insert-Distinct}
use bzapi.Messages.{Envelope, DatabaseResponse, Wire}
use bzapi.Dispatch.{
  Dispatch, MsgInfo, Effect, call, register_swarm_handler, send_request, responses_are_equal,
}
use bzapi.Dispatch.Quorum.{contains, HonestAgree, quorum_trusted}
use bzapi.Dispatch.Handlers.{timeout_response}
use bzapi.Dispatch.Handlers.Change.{
  calls, Cause, nothing, timed_out, received, ResponseOf, Update, timer_set, collected,
}
use bzapi.Dispatch.Run.{Event, send, response, error, retry_timeout, client_timeout}

All-insert :
    {V : Type 0} (Holds : Bytes × V → Type 0) (k : Bytes) (x : V) (m : Map Bytes V)
    → Holds (k, x)
    → All Holds m
    → All Holds (insert k x m)
unfolding insert
All-insert Holds k x [] this others = (this, tt)
All-insert Holds k x ((j, y) ∷ m) this others = elim (Bool-cases (j == k)) [
  | inl here ↦ rw here (this, others.1)
  | inr other ↦ rw other (others.0, All-insert Holds k x m this others.1)
]

module _ {H : Type 0} (n : ℕ) where
  -- Each answer that the caller of message `n` gets has the property.
  abbrev pub AllCalls : (DatabaseResponse → Type 0) → List (Effect H) → Type 0
  AllCalls Holds [] = Unit {0}
  AllCalls Holds (call m h x ∷ out) = (m ≡ n → Holds x) × AllCalls Holds out
  AllCalls Holds (register_swarm_handler sw ∷ out) = AllCalls Holds out
  AllCalls Holds (send_request sw env policy ∷ out) = AllCalls Holds out

  pub AllCalls-quiet :
      (Holds : DatabaseResponse → Type 0) (out : List (Effect H))
      → calls n out ≡ 0
      → AllCalls Holds out
  AllCalls-quiet Holds [] q = tt
  AllCalls-quiet Holds (call m h x ∷ out) q = elim (Bool-cases (nat_beq m n)) [
    | inl hit ↦ absurd (ground (arith, hit))
    | inr miss ↦ (λ e. absurd (ground arith), AllCalls-quiet Holds out (ground arith))
  ]
  AllCalls-quiet Holds (register_swarm_handler sw ∷ out) q = AllCalls-quiet Holds out q
  AllCalls-quiet Holds (send_request sw env policy ∷ out) q = AllCalls-quiet Holds out q

  pub AllCalls-append :
      (Holds : DatabaseResponse → Type 0) (xs ys : List (Effect H))
      → AllCalls Holds xs
      → AllCalls Holds ys
      → AllCalls Holds (xs ++ ys)
  AllCalls-append Holds [] ys hx hy = hy
  AllCalls-append Holds (call m h x ∷ xs) ys hx hy = (hx.0, AllCalls-append Holds xs ys hx.1 hy)
  AllCalls-append Holds (register_swarm_handler sw ∷ xs) ys hx hy =
      AllCalls-append Holds xs ys hx hy
  AllCalls-append Holds (send_request sw env policy ∷ xs) ys hx hy =
      AllCalls-append Holds xs ys hx hy

-- A timeout, or a response equal to `v`.
abbrev pub IsTrue : Wire → DatabaseResponse → DatabaseResponse → Type 0
IsTrue w v r = (r ≡ timeout_response) ⊎ (responses_are_equal w r v ≡ true)

-- Unless the envelope bears a name of `faulty`, a response to message `n` in it is equal to `v`.
abbrev pub IsHonest : Wire → ℕ → List Bytes → DatabaseResponse → Envelope → Type 0
IsHonest w n faulty v env =
    (r : DatabaseResponse)
    → ResponseOf w env n r
    → contains faulty env.sender ≡ false
    → responses_are_equal w r v ≡ true

module _ (w : Wire) {H : Type 0} (n : ℕ) (faulty : List Bytes) (v : DatabaseResponse) where
  abbrev pub AllHonest : List (Event H) → Type 0
  AllHonest [] = Unit {0}
  AllHonest (response env ∷ es) = IsHonest w n faulty v env × AllHonest es
  AllHonest (send timeout swarm db_uuid msg policy handler ∷ es) = AllHonest es
  AllHonest (error env ∷ es) = AllHonest es
  AllHonest (retry_timeout ec m ∷ es) = AllHonest es
  AllHonest (client_timeout ec m ∷ es) = AllHonest es

  pub record IsBelieved (info : MsgInfo H) : Type 0 where
    pub few : length faulty < info.responses_required
    pub distinct : Distinct info.responses
    pub agree : HonestAgree w faulty v info.responses

  pub record IsTrusted (s : Dispatch H) : Type 0 where
    pub given : n < s.next_nonce
    pub believed : (info : MsgInfo H) → lookup n s.messages ≡ some info → IsBelieved info

  pub record IsHonestCause (c : Cause H) : Type 0 where
    pub collects :
        (sender : Bytes) (r : DatabaseResponse)
        → c.Collects n sender r
        → contains faulty sender ≡ false
        → responses_are_equal w r v ≡ true
    pub answers :
        (info : MsgInfo H) (r : DatabaseResponse)
        → c.Answers n info r
        → IsBelieved info
        → IsTrue w v r

  pub nothing-IsHonestCause : IsHonestCause nothing
  nothing-IsHonestCause = record {
    collects = λ sender r e. absurd e;
    answers = λ info r e. absurd e;
  }

  pub timed_out-IsHonestCause : IsHonestCause timed_out
  timed_out-IsHonestCause = record {
    collects = λ sender r e. absurd e;
    answers = λ info r e b. inl e;
  }

  pub received-IsHonestCause :
      (env : Envelope) → IsHonest w n faulty v env → IsHonestCause (received w env)
  received-IsHonestCause env honest = record {
    collects = λ sender r (holds, from) sound.
        honest r holds (subst (λ f. contains faulty f ≡ false) from sound);
    answers = λ info r (holds, enough) b. inr (
        quorum_trusted w faulty r v (insert env.sender r info.responses)
          (insert-Distinct env.sender r info.responses b.distinct)
          (All-insert _ env.sender r info.responses (honest r holds) b.agree)
          (omega (arith, enough, b.few)));
  }

  pub Update-IsBelieved :
      {c : Cause H} {old new : MsgInfo H}
      → IsHonestCause c
      → Update c n old new
      → IsBelieved old
      → IsBelieved new
  Update-IsBelieved honest (timer_set h q r) b = record {
    few = rw q b.few;
    distinct = rw r b.distinct;
    agree = rw r b.agree;
  }
  Update-IsBelieved {c} {old} honest (collected sender r h q e from many) b = record {
    few = rw q b.few;
    distinct = rw e (insert-Distinct sender r old.responses b.distinct);
    agree = rw e (All-insert _ sender r old.responses (honest.collects sender r from) b.agree);
  }
