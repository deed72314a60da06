-- ===== src/Dispatch/Handlers/Delivery.antt =====
-- `handle_swarm_response`: an answer with enough equal ones is delivered.
use bzapi.Base.{
  ℕ, ◌≤◌, ◌≡◌, refl, ◌∙◌, ap, [], ◌∷◌, Bool, true, false, not, ◌&&◌, some, arith, length, list_eq,
  nat_eq, inl, inr, count_if-le,
}
use bzapi.Base.Text.{Bytes, is_empty}
use bzapi.Base.Map.{Map, insert, lookup}
use bzapi.Base.Outcome.{done}
use bzapi.Messages.{DatabaseResponse, Envelope, Wire}
use bzapi.Dispatch.{
  Dispatch, MsgInfo, call, responses_are_equal, qualify_response, at, default_response,
  has_quick_read,
}
use bzapi.Dispatch.Qualify.{votes, count_matches_lem}
use bzapi.Dispatch.Quorum.{at-insert}
use bzapi.Dispatch.Handlers.{forget, deliver, collect, handle_swarm_response}
use bzapi.Dispatch.Handlers.Responses.{Accepted}

length-insert_first :
    (sender : Bytes) (r : DatabaseResponse) (m : Map Bytes DatabaseResponse)
    → m ≡ []
    → length (insert sender r m) ≡ 1
unfolding insert
length-insert_first sender r m e = rw e refl

module _ (w : Wire) {H : Type 0} where
  qualify_response-enough :
      (info : MsgInfo H) (sender : Bytes) (mine : DatabaseResponse)
      → at default_response sender info.responses ≡ mine
      → 1 ≤ info.responses_required
      → info.responses_required ≤ votes w mine info.responses
      → (info.responses_required ≡ 1 → length info.responses ≡ 1)
      → qualify_response w info sender ≡ done true
  unfolding qualify_response
  qualify_response-enough info sender mine same pos enough single = ground (
    arith,
    same,
    count_if-le (λ e. responses_are_equal w e.1 mine) info.responses,
    count_matches_lem w info.responses_required (at default_response sender info.responses) 0
        info.responses,
  )

  collect-enough :
      (s : Dispatch H) (n : ℕ) (sender : Bytes) (unsigned : Bool) (r : DatabaseResponse)
      (info : MsgInfo H)
      → (not (has_quick_read r.answer) && unsigned) ≡ false
      → qualify_response w (record info { responses = insert sender r info.responses }) sender
        ≡ done true
      → collect w s n sender unsigned r (some info)
        ≡ done (forget s n, call n info.handler r ∷ [], false)
  unfolding collect deliver
  collect-enough s n sender unsigned r info signed q =
      rw (signed, q, at-insert w sender r info.responses) refl

  -- If a message requires at least one response, and has none yet where it requires one only, then
  -- an answer that may be accepted is delivered: the answer of a message is handed to its handler as
  -- soon as as many senders as it requires sent an equal one.
  pub handle_swarm_response-delivers :
      (s : Dispatch H) (env : Envelope) (n : ℕ) (r : DatabaseResponse) (info : MsgInfo H)
      → Accepted w s env n r info
      → 1 ≤ info.responses_required
      → (info.responses_required ≡ 1 → info.responses ≡ [])
      → handle_swarm_response w env s ≡ done (forget s n, call n info.handler r ∷ [], false)
  unfolding handle_swarm_response
  handle_swarm_response-delivers s env n r info a pos single =
      let q =
        qualify_response-enough (record info { responses = insert env.sender r info.responses })
          env.sender r (at-insert w env.sender r info.responses) pos a.enough
          (λ one. length-insert_first env.sender r info.responses (single one)) in
      let signed : (not (has_quick_read r.answer) && is_empty env.signature) ≡ false =
        elim a.signed [ inl e ↦ ground arith | inr e ↦ ground arith ] in
      rw (handle_swarm_response, a.parsed)
        (ap (λ k. collect w s k env.sender (is_empty env.signature) r (lookup k s.messages)) a.about
          ∙ rw a.known (collect-enough s n env.sender (is_empty env.signature) r info signed q))
