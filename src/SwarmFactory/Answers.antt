-- ===== src/SwarmFactory/Answers.antt =====
-- swarm/swarm_factory.cpp: what the callback of `has_db` is told, for every order of answers.
use bzapi.Base.{
  ℕ, suc, ◌+◌, ◌-◌, ◌%◌, ◌^◌, ◌<◌, ◌≡◌, refl, ap, ◌∙◌, List, [], ◌∷◌, ◌++◌, Bool, none, some,
  if◌then◌else◌, nat_beq, length, All, arith, nat_eq, list_eq, eq_refl,
}
use bzapi.Base.Map.{lookup, insert, lookup-insert}
use bzapi.Base.OrderedMap.{assign}
use bzapi.Base.Outcome.{done, ◌>>=◌}
use bzapi.Messages.{DbError, success, no_database}
use bzapi.SwarmFactory.{
  Factory, Effect, call, has_uuid, Callback, caller, HasReply, Step, preceded, decrement, call_back,
  has_replied,
}

-- The answers to `has_uuid` requests, one after the other.
unfoldable pub run_replies :
    {H : Type 0} → (ℕ → Bool) → List (HasReply H × DbError) → Factory → Step H
unfolding has_replied
run_replies alive [] s = done (s, [])
run_replies alive ((r, err) ∷ rs) s = do
  a ← has_replied alive r err s
  b ← run_replies alive rs a.0
  done (preceded a.1 b)

-- What a caller is told: success for each swarm that has the database, and that there is none when
-- the last answer is no success.
abbrev pub told : {H : Type 0} → H → List (HasReply H × DbError) → List (Effect H)
told h [] = []
told h ((r, success) ∷ rs) = call h success (some r.sw) ∷ told h rs
told h ((r, err) ∷ []) = call h no_database none ∷ []
told h ((r, err) ∷ rs) = told h rs

-- The requests among the effects.
abbrev pub requests : {H : Type 0} → List (Effect H) → List (HasReply H)
requests [] = []
requests (has_uuid sw r ∷ out) = r ∷ requests out
requests (e ∷ out) = requests out

pub decrement_lem : (n : ℕ) → suc n < 2 ^ 64 → (suc n + (2 ^ 64 - 1)) % 2 ^ 64 ≡ n
decrement_lem n small = omega arith

pub decrement_left :
    (query n : ℕ) (s : Factory)
    → suc n < 2 ^ 64
    → lookup query s.counts ≡ some (suc n)
    → (decrement query s).1 ≡ n
unfolding decrement
decrement_left query n s small e =
    ap (λ o. elim o [ none ↦ 0 | some c ↦ (c + (2 ^ 64 - 1)) % 2 ^ 64 ]) e ∙ decrement_lem n small

module _ {H : Type 0} where
  -- A request of a query, with its callback.
  abbrev pub Of : ℕ → Callback H → HasReply H → Type 0
  Of query callback r = (r.query ≡ query) × (r.callback ≡ callback)

  -- An answer to such a request.
  abbrev pub AnswerOf : ℕ → Callback H → HasReply H × DbError → Type 0
  AnswerOf query callback a = Of query callback a.0

  -- What one answer tells the caller when `n` answers are left.
  abbrev said : H → HasReply H → DbError → ℕ → List (Effect H)
  said h r success n = call h success (some r.sw) ∷ []
  said h r err n = if nat_beq n 0 then call h no_database none ∷ [] else []

  told-said :
      (h : H) (r : HasReply H) (err : DbError) (rs : List (HasReply H × DbError))
      → told h ((r, err) ∷ rs) ≡ said h r err (length rs) ++ told h rs
  told-said h r success rs = refl
  told-said h r err [] = ground arith
  told-said h r err (next ∷ rs) = ground arith

  has_replied-said :
      (alive : ℕ → Bool) (query n : ℕ) (h : H) (r : HasReply H) (err : DbError) (s : Factory)
      → suc n < 2 ^ 64
      → lookup query s.counts ≡ some (suc n)
      → Of query (caller h) r
      → (t : Factory) × ◌≡◌ {A = Step H} (has_replied alive r err s) (done (t, said h r err n))
        × (lookup query t.counts ≡ some n)
  unfolding has_replied call_back
  has_replied-said alive query n h r success s small e (q, c) = (
    record s { counts = insert query n s.counts; swarm_dbs = assign r.db_uuid r.sw_id s.swarm_dbs },
    rw (q, e, decrement_lem n small, c, call_back) refl,
    rw (lookup-insert query query n s.counts, eq_refl query) refl,
  )
  has_replied-said alive query n h r err s small e (q, c) =
      let t : Factory = record s { counts = insert query n s.counts } in
      (
        t,
        rw (q, e, decrement_lem n small, c, call_back) (ground arith),
        rw (lookup-insert query query n s.counts, eq_refl query) refl,
      )

  pub told-run_replies :
      (alive : ℕ → Bool) (query : ℕ) (h : H) (rs : List (HasReply H × DbError)) (s : Factory)
      → length rs < 2 ^ 64
      → lookup query s.counts ≡ some (length rs)
      → All (AnswerOf query (caller h)) rs
      → (t : Factory) × ◌≡◌ {A = Step H} (run_replies alive rs s) (done (t, told h rs))
  unfolding run_replies
  told-run_replies alive query h [] s small e ofs = (s, refl)
  told-run_replies alive query h ((r, err) ∷ rs) s small e (this, others) =
      let (s1, first, left) = has_replied-said alive query (length rs) h r err s small e this in
      let (t, rest) = told-run_replies alive query h rs s1 (omega arith) left others in
      (
        t,
        rw (told-said h r err rs) (
            ap (λ o. o >>= λ a. run_replies alive rs a.0 >>= λ b. done (preceded a.1 b)) first
            ∙ ap (λ o. o >>= λ b. done (preceded (said h r err (length rs)) b)) rest),
      )
