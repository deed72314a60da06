-- ===== src/Dispatch/Qualify.antt =====
-- `qualify_response` and its loop.
use bzapi.Base.{
  ℕ, ◌+◌, ◌<◌, ◌≡◌, ◌≢◌, [], ◌∷◌, true, false, arith, leb, length, count_if, list_eq, eq_refl,
}
use bzapi.Base.Text.{Bytes}
use bzapi.Base.Map.{Map, insert}
use bzapi.Base.Outcome.{done, undefined}
use bzapi.Messages.{DatabaseResponse, Wire}
use bzapi.Dispatch.{MsgInfo, responses_are_equal, count_matches, qualify_response}

module _ (w : Wire) where
  pub responses_are_equal_refl : (r : DatabaseResponse) → responses_are_equal w r r ≡ true
  unfolding responses_are_equal
  responses_are_equal_refl r = ground (arith, eq_refl (w.serialize_response r))

  -- How many of the collected responses are equal to `r`.
  abbrev pub votes : DatabaseResponse → Map Bytes DatabaseResponse → ℕ
  votes r m = count_if (λ e. responses_are_equal w e.1 r) m

  -- The loop compares the number of equal responses with the number required.
  pub count_matches_lem :
      (required : ℕ) (mine : DatabaseResponse) (matches : ℕ) (rs : Map Bytes DatabaseResponse)
      → matches < required
      → count_matches w required mine matches rs ≡ leb required (matches + votes mine rs)
  unfolding count_matches
  count_matches_lem required mine matches [] h = ground arith
  count_matches_lem required mine matches ((k, r) ∷ rs) h = ground (
    arith,
    count_matches_lem required mine (matches + 1) rs,
    count_matches_lem required mine matches rs h,
  )

module _ (w : Wire) {H : Type 0} where
  pub qualify_response-single :
      (info : MsgInfo H) (sender : Bytes)
      → 0 < length info.responses
      → qualify_response w info sender ≡ done false
      → info.responses_required ≢ 1
  unfolding qualify_response
  qualify_response-single info sender h e one = ground arith

  pub qualify_response-defined :
      (info : MsgInfo H) (sender : Bytes) (r : DatabaseResponse)
      → (info.responses_required ≡ 1 → info.responses ≡ [])
      → qualify_response w (record info { responses = insert sender r info.responses }) sender
        ≢ undefined
  unfolding qualify_response insert
  qualify_response-defined info sender r single e = ground arith
