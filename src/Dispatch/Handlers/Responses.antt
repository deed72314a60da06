-- ===== src/Dispatch/Handlers/Responses.antt =====
-- `handle_swarm_response`: when a caller is answered, and what that answer is worth.
use bzapi.Base.{
  ℕ, ◌≤◌, ◌<◌, ◌≡◌, ◌≢◌, refl, sym, subst, ◌∙◌, ap, List, [], ◌∷◌, Bool, true, false, not, ◌&&◌,
  Option, none, some, arith, length, list_eq, nat_eq, Bool-cases, Option-cases, inl, inr, ◌⊎◌,
}
use bzapi.Base.Text.{Bytes, is_empty}
use bzapi.Base.Map.{insert, lookup, Distinct, insert-Distinct}
use bzapi.Base.Outcome.{Outcome, done, threw, undefined, ◌>>=◌}
use bzapi.Messages.{DatabaseResponse, Envelope, Wire}
use bzapi.Dispatch.{
  Dispatch, MsgInfo, Effect, call, responses_are_equal, qualify_response, at, default_response,
  database_response_of, has_quick_read,
}
use bzapi.Dispatch.Qualify.{votes, qualify_response-defined}
use bzapi.Dispatch.Quorum.{HonestAgree, quorum_trusted, at-insert, qualify_response-votes}
use bzapi.Dispatch.Handlers.{Step, outcome, forget, deliver, collect, handle_swarm_response}

-- What must be the case when `r`, sent in `env`, is handed to a caller as the answer to message `n`.
pub record Accepted (w : Wire) {H : Type 0} (s : Dispatch H) (env : Envelope) (n : ℕ)
    (r : DatabaseResponse) (info : MsgInfo H) : Type 0 where
  pub parsed : w.parse_response (database_response_of env.payload) ≡ some r
  pub about : r.header.nonce ≡ n
  pub known : lookup n s.messages ≡ some info
  pub signed : (is_empty env.signature ≡ false) ⊎ (has_quick_read r.answer ≡ true)
  pub enough : info.responses_required ≤ votes w r (insert env.sender r info.responses)

-- A delivery is a qualified response, and ends the message.
delivered :
    {H : Type 0} (s : Dispatch H) {s' : Dispatch H} (n m : ℕ) (sender : Bytes) (info : MsgInfo H)
    (q : Outcome Bool) {x : DatabaseResponse} {h : H} {b : Bool} {rest : List (Effect H)}
    → (q >>= λ ok. done (deliver s n sender info ok)) ≡ done (s', call m h x ∷ rest, b)
    → (q ≡ done true)
      × (n ≡ m)
      × (x ≡ at default_response sender info.responses)
      × (h ≡ info.handler)
      × (s' ≡ forget s n)
      × (rest ≡ [])
unfolding deliver
delivered s n m sender info (done true) e = ground arith
delivered s n m sender info (done false) e = ground arith
delivered s n m sender info threw e = cc
delivered s n m sender info undefined e = cc

qualified-defined :
    {H : Type 0} (s : Dispatch H) (n : ℕ) (sender : Bytes) (info : MsgInfo H) (q : Outcome Bool)
    → q ≢ undefined
    → (q >>= λ ok. done (deliver s n sender info ok)) ≢ undefined
qualified-defined s n sender info (done b) h e = cc
qualified-defined s n sender info threw h e = cc
qualified-defined s n sender info undefined h e = h refl

pub outcome-eq-undefined : {H R : Type 0} (m : Step H R) → outcome m ≡ undefined → m ≡ undefined
outcome-eq-undefined (done r) e = cc
outcome-eq-undefined threw e = cc
outcome-eq-undefined undefined e = refl

module _ (w : Wire) {H : Type 0} (s : Dispatch H) where
  -- The same of the function that stores the response.
  collected_call :
      (n m : ℕ) (sender : Bytes) (unsigned : Bool) (r : DatabaseResponse) (o : Option (MsgInfo H))
      {s' : Dispatch H} {x : DatabaseResponse} {h : H} {b : Bool} {rest : List (Effect H)}
      → collect w s n sender unsigned r o ≡ done (s', call m h x ∷ rest, b)
      → (info : MsgInfo H) × (o ≡ some info)
        × ((unsigned ≡ false) ⊎ (has_quick_read r.answer ≡ true))
        × (qualify_response w (record info { responses = insert sender r info.responses }) sender
            ≡ done true)
        × (n ≡ m)
        × (x ≡ r)
        × (h ≡ info.handler)
        × (s' ≡ forget s n)
        × (rest ≡ [])
  unfolding collect
  collected_call n m sender unsigned r none e = absurd (ground arith)
  collected_call n m sender unsigned r (some info) e =
      elim (Bool-cases (not (has_quick_read r.answer) && unsigned)) [
        | inl dropped ↦ absurd (ground arith)
        | inr kept ↦
            let d =
              delivered s n m sender (record info { responses = insert sender r info.responses })
                (qualify_response w (record info { responses = insert sender r info.responses })
                  sender)
                (rw kept at e) in
            (
              info,
              refl,
              ground arith,
              d.0,
              d.1,
              d.2 ∙ at-insert w sender r info.responses,
              d.3,
              d.4,
              d.5,
            )
      ]

  collect-defined :
      (n : ℕ) (sender : Bytes) (unsigned : Bool) (r : DatabaseResponse) (o : Option (MsgInfo H))
      → ((info : MsgInfo H) → o ≡ some info → info.responses_required ≡ 1 → info.responses ≡ [])
      → collect w s n sender unsigned r o ≢ undefined
  unfolding collect
  collect-defined n sender unsigned r none single e = cc
  collect-defined n sender unsigned r (some info) single e =
      elim (Bool-cases (not (has_quick_read r.answer) && unsigned)) [
        | inl dropped ↦ absurd (ground arith)
        | inr kept ↦
            qualified-defined s n sender _ _
              (qualify_response-defined w info sender r (single info refl)) (rw kept at e)
      ]

  -- If no waiting message that one response would settle has one yet, every response is handled.
  pub handle_swarm_response-defined :
      (env : Envelope)
      → ((n : ℕ) (info : MsgInfo H)
          → lookup n s.messages ≡ some info
          → info.responses_required ≡ 1
          → info.responses ≡ [])
      → handle_swarm_response w env s ≢ undefined
  unfolding handle_swarm_response
  handle_swarm_response-defined env single e =
      elim (Option-cases (w.parse_response (database_response_of env.payload))) [
        | inl bad ↦ absurd (ground arith)
        | inr (r, good) ↦
            collect-defined r.header.nonce env.sender (is_empty env.signature) r
              (lookup r.header.nonce s.messages) (single r.header.nonce)
              (rw (good, handle_swarm_response) at e)
      ]

  -- The handler of message `n` is called with a response only if that response was just received
  -- for `n`, is signed or is a quick-read answer, and as many senders as the message requires sent a
  -- response equal to it; the message is then forgotten, and nothing else happens.
  pub handle_swarm_response-Accepted :
      (env : Envelope) (n : ℕ) {s' : Dispatch H} {h : H} {x : DatabaseResponse} {b : Bool}
      {rest : List (Effect H)}
      → handle_swarm_response w env s ≡ done (s', call n h x ∷ rest, b)
      → (info : MsgInfo H) × Accepted w s env n x info
        × (h ≡ info.handler)
        × (s' ≡ forget s n)
        × (rest ≡ [])
  unfolding handle_swarm_response
  handle_swarm_response-Accepted env n e =
      elim (Option-cases (w.parse_response (database_response_of env.payload))) [
        | inl bad ↦ absurd (ground arith)
        | inr (r, good) ↦
            let c =
              collected_call r.header.nonce n env.sender (is_empty env.signature) r
                (lookup r.header.nonce s.messages) (rw (good, handle_swarm_response) at e) in
            let enough = qualify_response-votes w c.0 env.sender r c.3 in
            (
              c.0,
              record {
                parsed = rw c.5 good;
                about = rw c.5 c.4;
                known = rw (sym c.4) c.1;
                signed = rw c.5 c.2;
                enough = rw c.5 enough;
              },
              c.6,
              c.7 ∙ ap (forget s) c.4,
              c.8,
            )
      ]

  -- If message `n` waits with one response at most for each sender, fewer nodes are faulty than
  -- responses are required, and all senders that are not faulty (the one just now included) answered
  -- a response equal to `v`, then an answer that the caller gets is equal to `v`.
  pub handle_swarm_response-trusted :
      (env : Envelope) (n : ℕ) (info : MsgInfo H) (faulty : List Bytes) (v : DatabaseResponse)
      {s' : Dispatch H} {h : H} {x : DatabaseResponse} {b : Bool} {rest : List (Effect H)}
      → lookup n s.messages ≡ some info
      → Distinct info.responses
      → HonestAgree w faulty v (insert env.sender x info.responses)
      → length faulty < info.responses_required
      → handle_swarm_response w env s ≡ done (s', call n h x ∷ rest, b)
      → responses_are_equal w x v ≡ true
  handle_swarm_response-trusted env n info faulty v {h} {x} known distinct agree few e =
      let (info', a, _, _, _) = handle_swarm_response-Accepted env n e in
      let same : info' ≡ info = ground (arith, known, a.known) in
      let enough : info.responses_required ≤ votes w x (insert env.sender x info.responses) =
        subst
          (λ (i : MsgInfo H). i.responses_required ≤ votes w x (insert env.sender x i.responses))
          same a.enough in
      quorum_trusted w faulty x v (insert env.sender x info.responses)
        (insert-Distinct env.sender x info.responses distinct) agree (omega (arith, enough))
