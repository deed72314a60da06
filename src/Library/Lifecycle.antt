-- ===== src/Library/Lifecycle.antt =====
-- library/library.cpp: `initialize` and `terminate` in any order, and the thread that they start and
-- join.
use bzapi.Base.{
  if-true, if-false, ◌≡◌, refl, sym, ap, ◌∙◌, subst, List, [], ◌∷◌, Bool, true, false, some,
  Bool-cases, inl, inr,
}
use bzapi.Base.Text.{Bytes}
use bzapi.Base.Outcome.{Outcome, done, threw, undefined}
use bzapi.SwarmFactory.Discovery.{initialize_esr}
use bzapi.SwarmFactory.{Factory, initialize_nodes}
use bzapi.Library.Endpoint.{bad_endpoint, parse_endpoint-ends}
use bzapi.Library.{
  Library, Attempt, returned, aborted, then_try, Outside, parse_endpoint, common_init,
  try_initialize, join_on_error, initialize, of_outcome, return_on_error, initialize_by_esr,
  terminate, new_factory, code, peer_at,
}

-- There is a thread exactly while the library is initialized.
abbrev pub Joined : Library → Type 0
Joined l = l.io_thread ≡ l.initialized

-- What `common_init` leaves.
abbrev pub started : Library → Library
started l = record l {
  io_thread = true;
  factory = some new_factory;
  error_val = code 0;
  error_str = [];
}

returned-injective : {A : Type 0} {a b : A} {l l1 : Library} → returned a l ≡ returned b l1 → l ≡ l1
returned-injective e = cc

pub common_init-starts :
    (private_key : Bytes) (l : Library)
    → l.io_thread ≡ false
    → common_init private_key l ≡ returned new_factory (started l)
unfolding common_init
common_init-starts private_key l no_thread = rw (no_thread, common_init) refl

common_init-aborts :
    (private_key : Bytes) (l : Library) → l.io_thread ≡ true → common_init private_key l ≡ aborted
unfolding common_init
common_init-aborts private_key l thread = rw (thread, common_init) refl

pub data Call : Type 0 where
  initialize_call : Bytes → Bytes → Bytes → Bytes → Call
  terminate_call : Call

module _ (o : Outside) where
  unfoldable pub step : Call → Library → Attempt Bool
  unfolding initialize terminate
  step (initialize_call private_key endpoint node_id swarm_id) l =
      initialize o private_key endpoint node_id swarm_id l
  step terminate_call l = returned true (terminate l)

  -- The calls one after the other, each with what it returned.
  unfoldable pub run : List Call → Library → Attempt (List Bool)
  unfolding step
  run [] l = returned [] l
  run (c ∷ cs) l =
      then_try (step c l) (λ b l1. then_try (run cs l1) (λ bs l2. returned (b ∷ bs) l2))

  -- A call returns, and leaves a thread exactly if the library is initialized.
  abbrev pub Returns : {A : Type 0} → Attempt A → Type 0
  Returns {A} a = (b : A) × (l : Library) × (a ≡ returned b l) × Joined l

  -- The rest of the `try` block.
  abbrev after_init : Bytes → Bytes → Bytes → Factory → Library → Attempt Bool
  after_init endpoint node_id swarm_id f l1 = then_try (parse_endpoint o endpoint l1) (λ ep l2.
      returned true (record l2 {
        factory = some (initialize_nodes swarm_id ((node_id, peer_at ep) ∷ []) f);
        initialized = true;
      }))

  try_initialize-Joined :
      (private_key endpoint node_id swarm_id : Bytes) (l : Library)
      → l.io_thread ≡ false
      → l.initialized ≡ false
      → Returns (join_on_error (try_initialize o private_key endpoint node_id swarm_id l))
  unfolding try_initialize
  try_initialize-Joined private_key endpoint node_id swarm_id l no_thread not_yet =
      let e = common_init-starts private_key l no_thread in
      elim (parse_endpoint-ends o endpoint (started l)) [
        | inl (ep, parsed) ↦ (
          true,
          record (started l) {
            factory = some (initialize_nodes swarm_id ((node_id, peer_at ep) ∷ []) new_factory);
            initialized = true;
          },
          ap (λ a. join_on_error (then_try a (after_init endpoint node_id swarm_id))) e
              ∙ ap
                  (λ a. join_on_error (
                    then_try a (λ ep l2. returned true (record l2 {
                      factory =
                          some (initialize_nodes swarm_id ((node_id, peer_at ep) ∷ []) new_factory);
                      initialized = true;
                    }))))
                  parsed,
          refl,
        )
        | inr bad ↦ (
          false,
          record (bad_endpoint (started l)) { io_thread = false },
          ap (λ a. join_on_error (then_try a (after_init endpoint node_id swarm_id))) e
              ∙ ap
                  (λ a. join_on_error (
                    then_try a (λ ep l2. returned true (record l2 {
                      factory =
                          some (initialize_nodes swarm_id ((node_id, peer_at ep) ∷ []) new_factory);
                      initialized = true;
                    }))))
                  bad,
          sym not_yet,
        )
      ]

  initialize-Joined :
      (private_key endpoint node_id swarm_id : Bytes) (l : Library)
      → Joined l
      → Returns (initialize o private_key endpoint node_id swarm_id l)
  unfolding initialize
  initialize-Joined private_key endpoint node_id swarm_id l joined =
      elim (Bool-cases l.initialized) [
        | inl already ↦ (false, l, if-true _ _ l.initialized already, joined)
        | inr not_yet ↦
            let (b, l1, e, ok) =
              try_initialize-Joined private_key endpoint node_id swarm_id l (joined ∙ not_yet)
                not_yet in
            (b, l1, if-false _ _ l.initialized not_yet ∙ e, ok)
      ]

  terminate-Joined : (l : Library) → Joined l → Joined (terminate l)
  unfolding terminate
  terminate-Joined l joined = elim (Bool-cases l.initialized) [
    | inl is ↦ subst Joined (sym (if-true _ l l.initialized is)) refl
    | inr is_not ↦ subst Joined (sym (if-false _ l l.initialized is_not)) joined
  ]

  step-Joined : (c : Call) (l : Library) → Joined l → Returns (step c l)
  unfolding step
  step-Joined (initialize_call private_key endpoint node_id swarm_id) l joined =
      initialize-Joined private_key endpoint node_id swarm_id l joined
  step-Joined terminate_call l joined = (true, terminate l, refl, terminate-Joined l joined)

  -- From a library that has a thread exactly if it is initialized, as it has at the start: any calls
  -- of the first `initialize` and of `terminate`, in any order and with any arguments, return, no
  -- thread is left behind and none is replaced before it is joined.
  pub run-Joined :
      (cs : List Call) (l : Library)
      → Joined l
      → (bs : List Bool) × (l1 : Library) × (run cs l ≡ returned bs l1) × Joined l1
  unfolding run
  run-Joined [] l joined = ([], l, refl, joined)
  run-Joined (c ∷ cs) l joined =
      let (b, l1, e1, joined1) = step-Joined c l joined in
      let (bs, l2, e2, joined2) = run-Joined cs l1 joined1 in
      (
        b ∷ bs,
        l2,
        ap (λ a. then_try a (λ b l1. then_try (run cs l1) (λ bs l2. returned (b ∷ bs) l2))) e1
            ∙ ap (λ a. then_try a (λ bs l2. returned (b ∷ bs) l2)) e2,
        joined2,
      )

  -- A thread is left behind.
  abbrev pub IsLeft : Library → Type 0
  IsLeft l = (l.io_thread ≡ true) × (l.initialized ≡ false)

  of_outcome-IsLeft :
      (r : Outcome Factory) (l : Library) {l1 : Library}
      → IsLeft l
      → return_on_error (of_outcome r l) ≡ returned false l1
      → IsLeft l1
  of_outcome-IsLeft (done f) l {l1} left e = cc
  of_outcome-IsLeft threw l {l1} left e = subst IsLeft (returned-injective e) left
  of_outcome-IsLeft undefined l {l1} left e = cc

  pub initialize_by_esr-IsLeft :
      (private_key esr_address url : Bytes) (l : Library) {l1 : Library}
      → l.initialized ≡ false
      → l.io_thread ≡ false
      → initialize_by_esr o private_key esr_address url l ≡ returned false l1
      → IsLeft l1
  unfolding initialize_by_esr
  initialize_by_esr-IsLeft private_key esr_address url l {l1} not_yet no_thread e =
      let go : Factory → Library → Attempt Bool =
        λ f l1. of_outcome (initialize_esr o.esr esr_address url (λ sw. false) f) l1 in
      let tried : return_on_error (then_try (common_init private_key l) go) ≡ returned false l1 =
        sym (if-false _ _ l.initialized not_yet) ∙ e in
      of_outcome-IsLeft _ (started l) (refl, not_yet)
        (sym
            (ap (λ a. return_on_error (then_try a go)) (common_init-starts private_key l no_thread))
          ∙ tried)

  -- When the second `initialize` returns false on a library that is not initialized and has no thread
  -- (the ESR's calls threw), it leaves its thread: the next `initialize`, of either kind, ends the
  -- process.
  pub initialize_by_esr-aborts :
      (private_key esr_address url : Bytes) (l : Library) {l1 : Library}
      (next_key endpoint node_id swarm_id next_address next_url : Bytes)
      → l.initialized ≡ false
      → l.io_thread ≡ false
      → initialize_by_esr o private_key esr_address url l ≡ returned false l1
      → (initialize o next_key endpoint node_id swarm_id l1 ≡ aborted)
        × (initialize_by_esr o next_key next_address next_url l1 ≡ aborted)
  unfolding initialize try_initialize initialize_by_esr
  initialize_by_esr-aborts private_key esr_address url l {l1} next_key endpoint node_id swarm_id
        next_address next_url not_yet no_thread e =
      let (thread, not_init) =
        initialize_by_esr-IsLeft private_key esr_address url l not_yet no_thread e in
      let ends = common_init-aborts next_key l1 thread in
      (
        if-false _ _ l1.initialized not_init
            ∙ ap (λ a. join_on_error (then_try a (after_init endpoint node_id swarm_id))) ends,
        if-false _ _ l1.initialized not_init
            ∙ ap
                (λ a. return_on_error (
                  then_try a (λ f l1.
                    of_outcome (initialize_esr o.esr next_address next_url (λ sw. false) f) l1)))
                ends,
      )
