-- ===== src/Lifecycle/Offers.antt =====
-- The dashboard's buttons against the server's lifecycle.
use iaas_platform.Base.{ℕ, ◌≡◌, ◌∙◌, ◌⊎◌, ap, Bool, true, false, arith, any}
use iaas_platform.Api.{Instance, Status, terminated, unknown, Action, start, stop, terminate}
use iaas_platform.Rows.{instance_action_buttons}
use iaas_platform.Rows.Buttons.{requested}
use iaas_platform.Lifecycle.{can_transition, target}
use iaas_platform.Server.{found}
use iaas_platform.Server.Compute.{Cloud, ComputeInstance}
use iaas_platform.Server.Compute.Service.{
  Faults, invalid_transition, done, refused, get, act_on, act, carry_out,
}

-- The statuses of the server's lifecycle.
abbrev pub IsKnown : Status → Type 0
IsKnown (unknown _) = ⊥
IsKnown _ = Unit

same_action : Action → Action → Bool
same_action start start = true
same_action stop stop = true
same_action terminate terminate = true
same_action _ _ = false

-- An action is offered in the instance's row.
pub offers : Instance → Action → Bool
unfolding same_action
offers i a = any (same_action a) (requested (instance_action_buttons i))

-- For an instance in a status of the server's lifecycle, the row offers an action exactly if the
-- server's table allows the transition that the action asks for.
pub offers-eq-can_transition :
    (i : Instance) (a : Action) → IsKnown i.status → offers i a ≡ can_transition i.status (target a)
unfolding offers instance_action_buttons can_transition target
offers-eq-can_transition i start known = ground arith
offers-eq-can_transition i stop known = ground arith
offers-eq-can_transition i terminate known = ground arith

-- What a request comes to for an instance that was found.
act_on-cases :
    (f : Faults) (a : Action) (row : ComputeInstance) (w : Cloud)
    → ((can_transition row.status (target a) ≡ true) × (act_on f a row w ≡ carry_out f a row w))
      ⊎ ((can_transition row.status (target a) ≡ false)
          × (act_on f a row w ≡ (w, refused invalid_transition)))
      ⊎ ((can_transition row.status (target a) ≡ false)
          × (a ≡ terminate)
          × (row.status ≡ terminated)
          × (act_on f a row w ≡ (w, done)))
unfolding act_on can_transition target
act_on-cases f start row w = ground arith
act_on-cases f stop row w = ground arith
act_on-cases f terminate row w = ground arith

-- An offered action is never refused by the lifecycle: where a member asks for it, `Get` finds the
-- instance, and its status is a status of the lifecycle and still the one of the row that the
-- dashboard shows, the request goes on to the provider and to the update of the status. An action
-- that is not offered is then an invalid transition and changes nothing; only an instance that is
-- terminated already may be terminated again, which changes nothing either.
pub offers-act :
    (i : Instance) (a : Action) (f : Faults) (org id : ℕ) (row : ComputeInstance) (w : Cloud)
    → get f org id w ≡ found row
    → i.status ≡ row.status
    → IsKnown i.status
    → ((offers i a ≡ true) × (act f (found tt) a org id w ≡ carry_out f a row w))
      ⊎ ((offers i a ≡ false) × (act f (found tt) a org id w ≡ (w, refused invalid_transition)))
      ⊎ ((offers i a ≡ false)
          × (a ≡ terminate)
          × (row.status ≡ terminated)
          × (act f (found tt) a org id w ≡ (w, done)))
unfolding act
offers-act i a f org id row w g same known =
    let table : offers i a ≡ can_transition row.status (target a) =
      offers-eq-can_transition i a known ∙ ap (λ s. can_transition s (target a)) same in
    rw (table, g) (act_on-cases f a row w)
