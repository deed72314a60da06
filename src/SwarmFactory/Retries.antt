-- ===== src/SwarmFactory/Retries.antt =====
-- swarm/swarm_factory.cpp: the retries of `do_create_db`, when every swarm refuses.
use bzapi.Base.{
  ℕ, zero, suc, ◌<◌, ◌≡◌, ◌≢◌, refl, sym, ap, ◌∙◌, List, [], ◌∷◌, ◌++◌, Bool, false, Option, none,
  length, All, arith,
}
use bzapi.Base.Text.{Bytes, is_empty}
use bzapi.Base.Outcome.{done, ◌>>=◌}
use bzapi.Messages.{DbError, success}
use bzapi.SwarmFactory.{
  Factory, Effect, call, new_swarm, create_uuid, CreateReply, Step, preceded, nth, create_replied,
  do_create_db, create_in, select_swarm_for_size, get_or_create_swarm,
}
use bzapi.SwarmFactory.Registry.{get_swarms}
use bzapi.SwarmFactory.Served.{Served, IsNew, get_or_create_swarm-total}

-- The requests to create a database among the effects, and the calls of callbacks.
abbrev pub creations : {H : Type 0} → List (Effect H) → List (CreateReply H)
creations [] = []
creations (create_uuid sw r ∷ out) = r ∷ creations out
creations (e ∷ out) = creations out

abbrev pub calls : {H : Type 0} → List (Effect H) → List (H × DbError × Option ℕ)
calls [] = []
calls (call h err sw ∷ out) = (h, err, sw) ∷ calls out
calls (e ∷ out) = calls out

-- The answers to a request to create a database and to those that follow it.
pub run_creations :
    {H : Type 0} → (ℕ → Bool) → List DbError → List (CreateReply H) → Factory → Step H
unfolding create_replied
run_creations alive [] rs s = done (s, [])
run_creations alive (err ∷ errs) [] s = done (s, [])
run_creations alive (err ∷ errs) (r ∷ rs) s = do
  a ← create_replied alive r err s
  b ← run_creations alive errs (creations a.1) a.0
  done (preceded a.1 b)

nth-total : (n : ℕ) (ids : List Bytes) → n < length ids → (id : Bytes) × (nth n ids ≡ done id)
unfolding nth
nth-total n [] h = elim h [ ]
nth-total zero (id ∷ ids) h = (id, refl)
nth-total (suc n) (id ∷ ids) h = nth-total n ids (omega arith)

module _ {H : Type 0} where
  creations-IsNew :
      (out rest : List (Effect H)) → All IsNew out → creations (out ++ rest) ≡ creations rest
  creations-IsNew [] rest new = refl
  creations-IsNew (new_swarm n id nodes ∷ out) rest (this, others) = creations-IsNew out rest others
  creations-IsNew (e ∷ out) rest (this, others) = elim this [ ]

  calls-IsNew : (out rest : List (Effect H)) → All IsNew out → calls (out ++ rest) ≡ calls rest
  calls-IsNew [] rest new = refl
  calls-IsNew (new_swarm n id nodes ∷ out) rest (this, others) = calls-IsNew out rest others
  calls-IsNew (e ∷ out) rest (this, others) = elim this [ ]

  creations-append : (xs ys : List (Effect H)) → creations (xs ++ ys) ≡ creations xs ++ creations ys
  creations-append [] ys = refl
  creations-append (create_uuid sw r ∷ xs) ys = ap (◌∷◌ r) (creations-append xs ys)
  creations-append (e ∷ xs) ys = creations-append xs ys

  calls-append : (xs ys : List (Effect H)) → calls (xs ++ ys) ≡ calls xs ++ calls ys
  calls-append [] ys = refl
  calls-append (call h err sw ∷ xs) ys = ap (◌∷◌ (h, err, sw)) (calls-append xs ys)
  calls-append (e ∷ xs) ys = calls-append xs ys

  -- One more request is made, and no callback called.
  abbrev Asked : ℕ → H → List Bytes → Step H → Type 0
  Asked retry h swarms step =
      (t : Factory) × (out : List (Effect H)) × (r : CreateReply H) × (step ≡ done (t, out))
      × (creations out ≡ r ∷ [])
      × (calls out ≡ [])
      × (r.retry ≡ retry)
      × (r.callback ≡ h)
      × (get_swarms t.swarm_reg ≡ swarms)
      × All Served t.swarm_reg

  create_in-made :
      (alive : ℕ → Bool) (id uuid : Bytes) (max_size : ℕ) (random_evict : Bool) (retry : ℕ) (h : H)
      (s : Factory) {t : Factory} {sw : ℕ} {out : List (Effect H)}
      → is_empty id ≡ false
      → get_or_create_swarm alive id s ≡ done (t, sw, out)
      → create_in alive id uuid max_size random_evict retry h s
        ≡ done (
          t,
          out
              ++ (create_uuid sw (record {
                db_uuid = uuid;
                max_size = max_size;
                random_evict = random_evict;
                sw_id = id;
                sw = sw;
                retry = retry;
                callback = h;
              })
                  ∷ []),
        )
  unfolding create_in
  create_in-made alive id uuid max_size random_evict retry h s named made = rw (named, made) refl

  do_create_db-total :
      (alive : ℕ → Bool) (uuid : Bytes) (max_size : ℕ) (random_evict : Bool) (retry : ℕ) (h : H)
      (s : Factory)
      → All Served s.swarm_reg
      → retry < length (get_swarms s.swarm_reg)
      → Asked retry h
          (get_swarms s.swarm_reg)
          (do_create_db alive uuid max_size random_evict retry h s)
  unfolding do_create_db select_swarm_for_size
  do_create_db-total alive uuid max_size random_evict retry h s all in_range =
      let (id, chosen) = nth-total retry (get_swarms s.swarm_reg) in_range in
      let (named, made) = get_or_create_swarm-total H alive retry id s all chosen in
      let (t, sw, out, made_eq, same, served, new, counts) = made in
      let r : CreateReply H = record {
        db_uuid = uuid;
        max_size = max_size;
        random_evict = random_evict;
        sw_id = id;
        sw = sw;
        retry = retry;
        callback = h;
      } in
      (
        t,
        out ++ (create_uuid sw r ∷ []),
        r,
        ap (λ o. o >>= λ id. create_in alive id uuid max_size random_evict retry h s) chosen
            ∙ create_in-made alive id uuid max_size random_evict retry h s named made_eq,
        creations-IsNew out (create_uuid sw r ∷ []) new,
        calls-IsNew out (create_uuid sw r ∷ []) new,
        refl,
        refl,
        same,
        served,
      )

  create_replied-last :
      (alive : ℕ → Bool) (r : CreateReply H) (err : DbError) (s : Factory)
      → err ≢ success
      → r.retry ≡ 0
      → create_replied alive r err s ≡ done (s, call r.callback err none ∷ [])
  unfolding create_replied
  create_replied-last alive r success s bad none_left = elim (bad refl) [ ]
  create_replied-last alive r err s bad none_left = rw (none_left, create_replied) refl

  create_replied-retry :
      (alive : ℕ → Bool) (r : CreateReply H) (err : DbError) (retry : ℕ) (s : Factory)
      → err ≢ success
      → r.retry ≡ suc retry
      → create_replied alive r err s
        ≡ do_create_db alive r.db_uuid r.max_size r.random_evict retry r.callback s
  unfolding create_replied
  create_replied-retry alive r success retry s bad some_left = elim (bad refl) [ ]
  create_replied-retry alive r err retry s bad some_left = rw (some_left, create_replied) refl

  run_creations-none :
      (alive : ℕ → Bool) (errs : List DbError) (s : Factory)
      → run_creations {H = H} alive errs [] s ≡ done (s, [])
  unfolding run_creations
  run_creations-none alive [] s = refl
  run_creations-none alive (e ∷ errs) s = refl

  -- Where every swarm has a name and a node and `retry` is below the number of swarms, a creation
  -- that is refused `retry + 1` times is over: there were `retry` more requests, and one call of the
  -- callback, with the last failure; later answers change nothing.
  pub run_creations-refused :
      (alive : ℕ → Bool) (r : CreateReply H) (errs : List DbError) (last : DbError)
      (more : List DbError) (s : Factory)
      → All Served s.swarm_reg
      → r.retry < length (get_swarms s.swarm_reg)
      → length errs ≡ r.retry
      → All (λ e. e ≢ success) errs
      → last ≢ success
      → (t : Factory) × (out : List (Effect H)) × (run_creations alive
            (errs ++ (last ∷ more))
            (r ∷ [])
            s
          ≡ done (t, out))
        × (length (creations out) ≡ r.retry)
        × (calls out ≡ (r.callback, last, none) ∷ [])
  unfolding run_creations
  run_creations-refused alive r [] last more s all in_range count bad last_bad = (
    s,
    call r.callback last none ∷ [],
    ap (λ o. o >>= λ a. run_creations alive more (creations a.1) a.0 >>= λ b. done (preceded a.1 b))
          (create_replied-last alive r last s last_bad (sym count))
        ∙ ap (λ o. o >>= λ b. done (preceded (call r.callback last none ∷ []) b))
            (run_creations-none alive more s),
    count,
    refl,
  )
  run_creations-refused alive r (e ∷ errs) last more s all in_range count (bad, others) last_bad =
      let errors = errs ++ (last ∷ more) in
      let (s1, out1, r1, asked, one, quiet, retry, callback, same, served) =
        do_create_db-total alive r.db_uuid r.max_size r.random_evict (length errs) r.callback s all
          (omega arith) in
      let (t, out, rest, count', called) =
        run_creations-refused alive r1 errs last more s1 served (rw (retry, same) (omega arith))
          (sym retry) others last_bad in
      (
        t,
        out1 ++ out,
        ap
              (λ o. o >>= λ a.
                run_creations alive errors (creations a.1) a.0 >>= λ b. done (preceded a.1 b))
              (create_replied-retry alive r e (length errs) s bad (sym count) ∙ asked)
            ∙ ap (λ rs. run_creations alive errors rs s1 >>= λ b. done (preceded out1 b)) one
            ∙ ap (λ o. o >>= λ b. done (preceded out1 b)) rest,
        ap length (creations-append out1 out ∙ ap (λ l. l ++ creations out) one)
            ∙ ap suc (count' ∙ retry)
            ∙ count,
        calls-append out1 out
            ∙ ap (λ l. l ++ calls out) quiet
            ∙ called
            ∙ ap (λ h. (h, last, none) ∷ []) callback,
      )
