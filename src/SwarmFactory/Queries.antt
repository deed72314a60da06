-- ===== src/SwarmFactory/Queries.antt =====
-- swarm/swarm_factory.cpp: `has_db` asks every swarm, and what its caller is told.
use bzapi.Base.{
  ℕ, suc, subst, ◌+◌, ◌^◌, ◌<◌, ◌≡◌, refl, sym, ap, ◌∙◌, List, [], ◌∷◌, ◌++◌, Bool, true, none,
  some, if◌then◌else◌, length, All, nat_eq, list_eq, eq_refl,
}
use mathlib.Core.List.{append_assoc}
use bzapi.Base.Text.{Bytes}
use bzapi.Base.Map.{lookup, insert, lookup-insert}
use bzapi.Base.Outcome.{done, undefined, ◌>>=◌}
use bzapi.Messages.{DbError}
use bzapi.SwarmFactory.{
  Factory, Effect, has_uuid, Callback, caller, HasReply, Step, preceded, new_swarm, has_db, find_db,
  ask_swarms, nth,
}
use bzapi.SwarmFactory.Served.{Served, IsNew, get_or_create_swarm-total}
use bzapi.SwarmFactory.Registry.{get_swarms}
use bzapi.SwarmFactory.Answers.{run_replies, told, requests, Of, AnswerOf, told-run_replies}

-- The swarm stands in the list.
abbrev Listed : List Bytes → Bytes → Type 0
Listed swarms id = (n : ℕ) × (nth n swarms ≡ done id)

All-Listed : (ids : List Bytes) → All (Listed ids) ids
unfolding nth
All-Listed [] = tt
All-Listed (id ∷ ids) = ((0, refl), later ids (All-Listed ids))
  where
    later : (rest : List Bytes) → All (Listed ids) rest → All (Listed (id ∷ ids)) rest
    later [] listed = tt
    later (i ∷ rest) ((n, this), others) = ((suc n, this), later rest others)

module _ {H : Type 0} where
  requests-IsNew :
      (out rest : List (Effect H)) → All IsNew out → requests (out ++ rest) ≡ requests rest
  requests-IsNew [] rest new = refl
  requests-IsNew (new_swarm n id nodes ∷ out) rest (this, others) = requests-IsNew out rest others
  requests-IsNew (e ∷ out) rest (this, others) = elim this [ ]

  requests-one :
      (out rest : List (Effect H)) (sw : ℕ) (r : HasReply H)
      → All IsNew out
      → requests ((out ++ (has_uuid sw r ∷ [])) ++ rest) ≡ r ∷ requests rest
  requests-one out rest sw r new =
      ap requests (append_assoc out (has_uuid sw r ∷ []) rest)
      ∙ requests-IsNew out (has_uuid sw r ∷ rest) new

  -- One request of the query for each of the swarms.
  abbrev pub OneEach : ℕ → Callback H → List Bytes → List (HasReply H) → Type 0
  OneEach query callback ids rs = (length rs ≡ length ids) × All (Of query callback) rs

  ask_swarms-total :
      (alive : ℕ → Bool) (uuid : Bytes) (query : ℕ) (callback : Callback H)
      (swarms ids : List Bytes) (s : Factory)
      → All Served s.swarm_reg
      → get_swarms s.swarm_reg ≡ swarms
      → All (Listed swarms) ids
      → (t : Factory) × (out : List (Effect H)) × (ask_swarms alive uuid query callback ids s
          ≡ done (t, out))
        × (t.counts ≡ s.counts)
        × OneEach query callback ids (requests out)
  unfolding ask_swarms
  ask_swarms-total alive uuid query callback swarms [] s all same listed =
      (s, [], refl, refl, (refl, tt))
  ask_swarms-total alive uuid query callback swarms (id ∷ ids) s all same ((n, this), others) =
      let (named, made) = get_or_create_swarm-total H alive n id s all (ap (nth n) same ∙ this) in
      let (s1, sw, new, made_eq, same1, all1, news, counts1) = made in
      let (t, out, rest, counts, (count, ofs)) =
        ask_swarms-total alive uuid query callback swarms ids s1 all1 (same1 ∙ same) others in
      let r : HasReply H = record {
        db_uuid = uuid;
        sw_id = id;
        sw = sw;
        query = query;
        callback = callback;
      } in
      let sent : List (Effect H) = new ++ (has_uuid sw r ∷ []) in
      (
        t,
        sent ++ out,
        ap
              (λ o. o >>= λ a. ask_swarms alive uuid query callback ids a.0 >>= λ b. done (
                preceded
                  (a.2
                    ++ (has_uuid a.1 (record {
                      db_uuid = uuid;
                      sw_id = id;
                      sw = a.1;
                      query = query;
                      callback = callback;
                    })
                        ∷ []))
                  b))
              made_eq
            ∙ ap (λ o. o >>= λ b. done (preceded sent b)) rest,
        counts ∙ counts1,
        subst (OneEach query callback (id ∷ ids)) (sym (requests-one new out sw r news))
            (ap suc count, ((refl, refl), ofs)),
      )

  -- An initialized factory, whose swarms (fewer than 2 ^ 64) have each a name and a node, is asked
  -- for a database that it does not know. It makes one request to each swarm. Whatever the answers
  -- are, one for each request and in any order, the caller is then told success for each swarm that
  -- has the database, and that there is none exactly when the last answer is no success.
  pub has_db-run_replies :
      (alive : ℕ → Bool) (uuid : Bytes) (h : H) (s : Factory) (rs : List (HasReply H × DbError))
      → s.initialized ≡ true
      → All Served s.swarm_reg
      → lookup uuid s.swarm_dbs ≡ none
      → length (get_swarms s.swarm_reg) < 2 ^ 64
      → length rs ≡ length (get_swarms s.swarm_reg)
      → All (AnswerOf s.next_query (caller h)) rs
      → (asked : Factory) × (out : List (Effect H)) × (answered : Factory) × (has_db alive uuid
            (caller h)
            s
          ≡ done (asked, out))
        × OneEach s.next_query (caller h) (get_swarms s.swarm_reg) (requests out)
        × ◌≡◌ {A = Step H} (run_replies alive rs asked) (done (answered, told h rs))
  unfolding has_db find_db
  has_db-run_replies alive uuid h s rs init all unknown small many ofs =
      let swarms = get_swarms s.swarm_reg in
      let s1 : Factory = record s {
        counts = insert s.next_query (length swarms) s.counts;
        next_query = s.next_query + 1;
      } in
      let (asked, out, done_eq, counts, one) =
        ask_swarms-total alive uuid s.next_query (caller h) swarms swarms s1 all refl
          (All-Listed swarms) in
      let left : lookup s.next_query asked.counts ≡ some (length rs) =
        ap (lookup s.next_query) counts
        ∙ lookup-insert s.next_query s.next_query (length swarms) s.counts
        ∙ ap (λ b. if b then some (length swarms) else lookup s.next_query s.counts)
            (eq_refl s.next_query)
        ∙ ap some (sym many) in
      let (t, end) = told-run_replies alive s.next_query h rs asked (rw many small) left ofs in
      (
        asked,
        out,
        t,
        ap (λ b. if b then find_db alive uuid (caller h) (lookup uuid s.swarm_dbs) s else undefined)
              init
            ∙ ap (λ o. find_db alive uuid (caller h) o s) unknown
            ∙ done_eq,
        one,
        end,
      )
