-- ===== src/Library/Reachable.antt =====
-- library/library.cpp: the second `initialize` where the ESR answers.
use bzapi.Base.{
  ◌≡◌, refl, ap, ◌∙◌, Bool, true, false, some, if-true, if-false, Bool-cases, inl, inr,
}
use bzapi.Base.Text.{Bytes}
use bzapi.Base.Outcome.{done}
use bzapi.SwarmFactory.{Factory}
use bzapi.SwarmFactory.Discovery.{initialize_esr}
use bzapi.Library.{
  Library, Attempt, returned, Outside, then_try, of_outcome, return_on_error, initialize_by_esr,
  new_factory,
}
use bzapi.Library.Lifecycle.{Joined, started, common_init-starts}

-- From the ESR's answers the factory is initialized.
pub record IsReachable (o : Outside) : Type 0 where
  pub answers :
      (esr_address url : Bytes)
      → (f : Factory) × (initialize_esr o.esr esr_address url (λ sw. false) new_factory ≡ done f)

module _ (o : Outside) (reachable : IsReachable o) where
  pub initialize_by_esr-Joined :
      (private_key esr_address url : Bytes) (l : Library)
      → Joined l
      → (b : Bool) × (l1 : Library) × (initialize_by_esr o private_key esr_address url l
          ≡ returned b l1)
        × Joined l1
  unfolding initialize_by_esr
  initialize_by_esr-Joined private_key esr_address url l joined = elim (Bool-cases l.initialized) [
    | inl already ↦ (false, l, if-true _ _ l.initialized already, joined)
    | inr not_yet ↦
        let go : Factory → Library → Attempt Bool =
          λ f l1. of_outcome (initialize_esr o.esr esr_address url (λ sw. false) f) l1 in
        let (f, answered) = reachable.answers esr_address url in
        (
          true,
          record (started l) { factory = some f; initialized = true },
          if-false _ _ l.initialized not_yet
              ∙ ap (λ a. return_on_error (then_try a go))
                  (common_init-starts private_key l (joined ∙ not_yet))
              ∙ ap (λ r. return_on_error (of_outcome r (started l))) answered,
          refl,
        )
  ]
