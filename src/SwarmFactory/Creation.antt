-- ===== src/SwarmFactory/Creation.antt =====
-- swarm/swarm_factory.cpp: `create_db`, from the first answer on. Whether a database is created rests
-- on the last answer alone.
use bzapi.Base.{
  ℕ, suc, ◌^◌, ◌<◌, ◌≡◌, refl, sym, ap, ◌∙◌, List, [], ◌∷◌, ◌++◌, Bool, true, false, none, some,
  if◌then◌else◌, length, All, arith, nat_eq, list_eq, eq_refl,
}
use mathlib.Core.List.{append_assoc, append-nil}
use bzapi.Base.Text.{Bytes}
use bzapi.Base.Map.{lookup, insert, lookup-insert}
use bzapi.Base.OrderedMap.{assign}
use bzapi.Base.Outcome.{done, threw, undefined, ◌>>=◌}
use bzapi.Messages.{DbError, success, already_exists}
use bzapi.SwarmFactory.{
  Factory, Effect, call, creating, HasReply, Step, preceded, call_back, has_replied, do_create_db,
  retries,
}
use bzapi.SwarmFactory.Answers.{run_replies, Of, AnswerOf, decrement_lem, decrement_left}

abbrev pub fails : DbError → Bool
fails success = false
fails err = true

module _ {H : Type 0} where
  -- A caller is refused once for each swarm that has the database.
  abbrev pub refusals : H → List (HasReply H × DbError) → List (Effect H)
  refusals h [] = []
  refusals h ((r, success) ∷ rs) = call h already_exists none ∷ refusals h rs
  refusals h ((r, err) ∷ rs) = refusals h rs

  abbrev pub last_fails : List (HasReply H × DbError) → Bool
  last_fails [] = false
  last_fails (a ∷ []) = fails a.1
  last_fails (a ∷ next ∷ rs) = last_fails (next ∷ rs)

  -- An answer that is not the last.
  has_replied-refused :
      (alive : ℕ → Bool) (query n : ℕ) (uuid : Bytes) (max_size : ℕ) (random_evict : Bool) (h : H)
      (r : HasReply H) (err : DbError) (s : Factory)
      → suc (suc n) < 2 ^ 64
      → lookup query s.counts ≡ some (suc (suc n))
      → Of query (creating uuid max_size random_evict h) r
      → (t : Factory) × ◌≡◌ {A = Step H}
          (has_replied alive r err s)
          (done (t, refusals h ((r, err) ∷ [])))
        × (lookup query t.counts ≡ some (suc n))
        × (t.swarm_reg ≡ s.swarm_reg)
  unfolding has_replied call_back
  has_replied-refused alive query n uuid max_size random_evict h r success s small e (q, c) = (
    record s {
      counts = insert query (suc n) s.counts;
      swarm_dbs = assign r.db_uuid r.sw_id s.swarm_dbs;
    },
    rw (q, e, decrement_lem (suc n) small, c, call_back) refl,
    rw (lookup-insert query query (suc n) s.counts, eq_refl query) refl,
    refl,
  )
  has_replied-refused alive query n uuid max_size random_evict h r err s small e (q, c) = (
    record s { counts = insert query (suc n) s.counts },
    rw (q, e, decrement_lem (suc n) small, c, call_back) (ground arith),
    rw (lookup-insert query query (suc n) s.counts, eq_refl query) refl,
    refl,
  )

  -- The effects so far, and then those of the creation, if there is one.
  abbrev pub ending : Bool → List (Effect H) → Factory → Step H → Step H
  ending b out t m = if b then m >>= (λ b. done (preceded out b)) else done (t, out)

  preceded-if :
      (b : Bool) (first out : List (Effect H)) (t : Factory) (m : Step H)
      → (ending b out t m >>= (λ b. done (preceded first b))) ≡ ending b (first ++ out) t m
  preceded-if true first out t (done x) = ap (λ l. done (x.0, l)) (sym (append_assoc first out x.1))
  preceded-if true first out t threw = refl
  preceded-if true first out t undefined = refl
  preceded-if false first out t m = refl

  preceded-nil :
      (m : Step H)
      → (m >>= λ a. done (a.0, []) >>= λ b. done (preceded a.1 b))
        ≡ (m >>= λ b. done (preceded [] b))
  preceded-nil (done a) = ap (λ l. done (a.0, l)) (append-nil a.1)
  preceded-nil threw = refl
  preceded-nil undefined = refl

  -- What follows the last answer.
  abbrev pub creation :
      (ℕ → Bool) → Bytes → ℕ → Bool → H → List (HasReply H × DbError) → Factory → Step H
  creation alive uuid max_size random_evict h rs t =
      ending (last_fails rs) (refusals h rs) t
        (do_create_db alive uuid max_size random_evict (retries t) h t)

  refusals-cons :
      (h : H) (a : HasReply H × DbError) (rs : List (HasReply H × DbError))
      → refusals h (a ∷ rs) ≡ refusals h (a ∷ []) ++ refusals h rs
  refusals-cons h (r, success) rs = refl
  refusals-cons h (r, err) rs = refl

  creation-last :
      (alive : ℕ → Bool) (query : ℕ) (uuid : Bytes) (max_size : ℕ) (random_evict : Bool) (h : H)
      (r : HasReply H) (err : DbError) (s : Factory)
      → lookup query s.counts ≡ some 1
      → Of query (creating uuid max_size random_evict h) r
      → (t : Factory) × (run_replies alive ((r, err) ∷ []) s
          ≡ creation alive uuid max_size random_evict h ((r, err) ∷ []) t)
        × (t.swarm_reg ≡ s.swarm_reg)
  unfolding run_replies has_replied call_back
  creation-last alive query uuid max_size random_evict h r success s e (q, c) = (
    record s { counts = insert query 0 s.counts; swarm_dbs = assign r.db_uuid r.sw_id s.swarm_dbs },
    rw (q, e, decrement_lem 0 (omega arith), c, call_back) refl,
    refl,
  )
  creation-last alive query uuid max_size random_evict h r err s e (q, c) =
      let t : Factory = record s { counts = insert query 0 s.counts } in
      (
        t,
        rw
            (
              q,
              e,
              decrement_lem 0 (omega arith),
              decrement_left query 0 s (omega arith) e,
              c,
              call_back,
            )
            (preceded-nil (do_create_db alive uuid max_size random_evict (retries t) h t)),
        refl,
      )

  -- When the count of a `create_db` is the number of its answers (fewer than 2 ^ 64), whatever they
  -- are and in whatever order: each success tells the caller that the database exists already, and
  -- the creation is begun all the same exactly when the last answer is no success.
  pub create_db-run_replies :
      (alive : ℕ → Bool) (query : ℕ) (uuid : Bytes) (max_size : ℕ) (random_evict : Bool) (h : H)
      (rs : List (HasReply H × DbError)) (s : Factory)
      → length rs < 2 ^ 64
      → lookup query s.counts ≡ some (length rs)
      → All (AnswerOf query (creating uuid max_size random_evict h)) rs
      → (t : Factory) × (run_replies alive rs s ≡ creation alive uuid max_size random_evict h rs t)
        × (t.swarm_reg ≡ s.swarm_reg)
  unfolding run_replies
  create_db-run_replies alive query uuid max_size random_evict h [] s small e ofs = (s, refl, refl)
  create_db-run_replies alive query uuid max_size random_evict h ((r, err) ∷ []) s small e
        (this, ofs) =
      creation-last alive query uuid max_size random_evict h r err s e this
  create_db-run_replies alive query uuid max_size random_evict h ((r, err) ∷ next ∷ rs) s small e
        (this, others) =
      let (s1, first, left, same) =
        has_replied-refused alive query (length rs) uuid max_size random_evict h r err s small e
          this in
      let (t, rest, same') =
        create_db-run_replies alive query uuid max_size random_evict h (next ∷ rs) s1 (omega arith)
          left others in
      (
        t,
        ap (λ o. o >>= λ a. run_replies alive (next ∷ rs) a.0 >>= λ b. done (preceded a.1 b)) first
            ∙ ap (λ o. o >>= λ b. done (preceded (refusals h ((r, err) ∷ [])) b)) rest
            ∙ preceded-if (last_fails (next ∷ rs)) (refusals h ((r, err) ∷ []))
                (refusals h (next ∷ rs)) t
                (do_create_db alive uuid max_size random_evict (retries t) h t)
            ∙ ap
                (λ out.
                  ending (last_fails (next ∷ rs)) out t
                    (do_create_db alive uuid max_size random_evict (retries t) h t))
                (sym (refusals-cons h (r, err) (next ∷ rs))),
        same' ∙ same,
      )
