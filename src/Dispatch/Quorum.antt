-- ===== src/Dispatch/Quorum.antt =====
-- What it takes for a response to be handed to the caller, and why faulty nodes cannot outvote the
-- honest ones.
use bzapi.Base.{
  ◌+◌, ◌≤◌, ◌<◌, ◌≡◌, ◌⊎◌, inl, inr, List, [], ◌∷◌, Bool, true, false, ◌||◌, arith, length,
  count_if, list_eq, nat_eq, eq_refl, eq_iff, ◌==◌, All,
}
use bzapi.Base.Text.{Bytes}
use bzapi.Base.Map.{Map, insert, lookup-insert, Distinct, count_key-le}
use bzapi.Base.Outcome.{done}
use bzapi.Messages.{DatabaseResponse, Wire}
use bzapi.Dispatch.{MsgInfo, responses_are_equal, qualify_response, at, default_response}
use bzapi.Dispatch.Qualify.{votes, count_matches_lem, responses_are_equal_refl}

-- `contains` of a list of node ids.
abbrev pub contains : List Bytes → Bytes → Bool
contains [] k = false
contains (f ∷ fs) k = k == f || contains fs k

-- Distinct senders: at most as many of them are in a list as the list has items.
count_contained-le :
    {V : Type 0} (faulty : List Bytes) (m : Map Bytes V)
    → Distinct m
    → count_if (λ e. contains faulty e.0) m ≤ length faulty
count_contained-le {V} [] m d = none_contained m
  where
    none_contained : (l : Map Bytes V) → count_if (λ e. false) l ≤ 0
    none_contained [] = omega arith
    none_contained (e ∷ l) = none_contained l
count_contained-le {V} (f ∷ fs) m d =
    omega (arith, split m, count_key-le f m d, count_contained-le fs m d)
  where
    split :
        (l : Map Bytes V)
        → count_if (λ e. e.0 == f || contains fs e.0) l
          ≤ count_if (λ e. e.0 == f) l + count_if (λ e. contains fs e.0) l
    split [] = omega arith
    split (e ∷ l) = ground (arith, split l)

module _ (w : Wire) where
  responses_are_equal_trans :
      (a b c : DatabaseResponse)
      → responses_are_equal w a b ≡ true
      → responses_are_equal w a c ≡ true
      → responses_are_equal w b c ≡ true
  unfolding responses_are_equal
  responses_are_equal_trans a b c h k = ground (
    arith,
    eq_iff (w.serialize_response a) (w.serialize_response b),
    eq_iff (w.serialize_response a) (w.serialize_response c),
    eq_iff (w.serialize_response b) (w.serialize_response c),
  )

  -- Every sender outside `faulty` responded with `v`.
  abbrev pub HonestAgree : List Bytes → DatabaseResponse → Map Bytes DatabaseResponse → Type 0
  HonestAgree faulty v = All (λ e. contains faulty e.0 ≡ false → responses_are_equal w e.1 v ≡ true)

  honest_vote :
      (faulty : List Bytes) (r v : DatabaseResponse) (m : Map Bytes DatabaseResponse)
      → HonestAgree faulty v m
      → (responses_are_equal w r v ≡ true) ⊎ (votes w r m ≤ count_if (λ e. contains faulty e.0) m)
  honest_vote faulty r v [] agree = inr (omega arith)
  honest_vote faulty r v ((k, x) ∷ m) agree =
      ground (arith, honest_vote faulty r v m agree.1, responses_are_equal_trans x r v, agree.0)

  -- A response with more votes than there are faulty nodes is the response of the honest ones.
  pub quorum_trusted :
      (faulty : List Bytes) (r v : DatabaseResponse) (m : Map Bytes DatabaseResponse)
      → Distinct m
      → HonestAgree faulty v m
      → length faulty < votes w r m
      → responses_are_equal w r v ≡ true
  quorum_trusted faulty r v m d agree more = elim (honest_vote faulty r v m agree) [
    | inl e ↦ e
    | inr h ↦ absurd (omega (arith, h, count_contained-le faulty m d))
  ]

  pub at-insert :
      (sender : Bytes) (r : DatabaseResponse) (m : Map Bytes DatabaseResponse)
      → at default_response sender (insert sender r m) ≡ r
  at-insert sender r m = rw (lookup-insert sender sender r m, at) (rw (eq_refl sender))

  votes-insert-pos :
      (sender : Bytes) (r : DatabaseResponse) (m : Map Bytes DatabaseResponse)
      → 0 < votes w r (insert sender r m)
  unfolding insert
  votes-insert-pos sender r [] = ground (arith, responses_are_equal_refl w r)
  votes-insert-pos sender r ((k, x) ∷ m) =
      ground (arith, responses_are_equal_refl w r, votes-insert-pos sender r m)

module _ (w : Wire) {H : Type 0} where
  qualify_votes :
      (info : MsgInfo H) (sender : Bytes) (mine : DatabaseResponse)
      → at default_response sender info.responses ≡ mine
      → 0 < votes w mine info.responses
      → qualify_response w info sender ≡ done true
      → info.responses_required ≤ votes w mine info.responses
  unfolding qualify_response
  qualify_votes info sender mine same own e = ground (
    arith,
    same,
    count_matches_lem w info.responses_required mine 0 info.responses,
    count_matches_lem w info.responses_required (at default_response sender info.responses) 0
        info.responses,
  )

  -- A response qualifies only if as many collected responses as required are equal to it.
  pub qualify_response-votes :
      (info : MsgInfo H) (sender : Bytes) (r : DatabaseResponse)
      → (let info' = record info { responses = insert sender r info.responses } in
          qualify_response w info' sender ≡ done true
          → info.responses_required ≤ votes w r info'.responses)
  qualify_response-votes info sender r e =
      qualify_votes (record info { responses = insert sender r info.responses }) sender r
        (at-insert w sender r info.responses) (votes-insert-pos w sender r info.responses) e
