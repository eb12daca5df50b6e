-- ===== src/Server/Compute/Coherent.antt =====
-- The rows of the instances and the states of the provider under them: internal/compute/service.go,
-- sim_provider.go and reconciler.go.
use iaas_platform.Base.{
  ℕ, ◌+◌, ◌≡◌, refl, inl, inr, Bool, true, false, not, ◌&&◌, Option, none, some, List, [], ◌∷◌, any,
  All, leb, ◌==◌, arith, Option-cases,
}
use iaas_platform.Api.{Status, pending, running, stopping, stopped, terminating, terminated}
use iaas_platform.Lifecycle.{can_transition}
use iaas_platform.Server.Compute.{Cloud, ComputeInstance, ProviderState, same_status}
use iaas_platform.Server.Compute.Provider.{find_state, get_state, report}
use iaas_platform.Server.Compute.Reconciler.{TickFaults, wanted, reconcile, settle_row, settle_rows}

-- A status and a state of the provider that agree, at a time.
unfoldable pub agrees : ℕ → ℕ → ℕ → Status → Status → ℕ → Bool
agrees provision_delay stop_delay now pending pending at = true
agrees provision_delay stop_delay now running pending at = leb (at + provision_delay) now
agrees provision_delay stop_delay now stopping stopping at = true
agrees provision_delay stop_delay now stopped stopping at = leb (at + stop_delay) now
agrees provision_delay stop_delay now terminating terminated at = true
agrees provision_delay stop_delay now terminated terminated at = true
agrees provision_delay stop_delay now _ _ at = false

unfoldable pub agrees_with : ℕ → ℕ → ℕ → Status → Option ProviderState → Bool
unfolding agrees
agrees_with provision_delay stop_delay now s none = false
agrees_with provision_delay stop_delay now s (some p) =
    agrees provision_delay stop_delay now s p.desired_state p.transition_at

-- The row agrees with the state that the provider has for it.
unfoldable pub coherent : Cloud → ComputeInstance → Bool
unfolding agrees_with find_state
coherent w i =
    agrees_with w.provision_delay w.stop_delay w.now i.status (find_state i.provider_id w.provider)

abbrev pub has_pid : ℕ → List ComputeInstance → Bool
has_pid p l = any (λ (j : ComputeInstance). j.provider_id == p) l

-- No two rows have the same identifier at the provider.
unfoldable pub own_pids : List ComputeInstance → Bool
own_pids [] = true
own_pids (i ∷ l) = not (has_pid i.provider_id l) && own_pids l

pub record Coherent (w : Cloud) : Type 0 where
  pub rows : All (λ (i : ComputeInstance). coherent w i ≡ true) w.instances
  pub pids : own_pids w.instances ≡ true

-- The status that is written, if any, is one that the table allows after the other.
unfoldable pub allowed : Status → Option Status → Bool
unfolding can_transition
allowed s none = true
allowed s (some t) = can_transition s t

abbrev after_wanted : Status → Option Status → Status
after_wanted s none = s
after_wanted s (some t) = t

wanted-agrees :
    (a b now : ℕ) (s d : Status) (at : ℕ)
    → agrees a b now s d at ≡ true
    → (allowed s (wanted s (report a b now d at)) ≡ true)
      × (agrees a b now (after_wanted s (wanted s (report a b now d at))) d at ≡ true)
unfolding agrees wanted report allowed same_status can_transition
wanted-agrees a b now pending pending at h = (ground arith, ground arith)
wanted-agrees a b now running pending at h = (ground (arith, h), ground (arith, h))
wanted-agrees a b now stopping stopping at h = (ground arith, ground arith)
wanted-agrees a b now stopped stopping at h = (ground (arith, h), ground (arith, h))
wanted-agrees a b now terminating terminated at h = (ground arith, ground arith)
wanted-agrees a b now terminated terminated at h = (ground arith, ground arith)
wanted-agrees a b now _ _ at h = (ground (arith, h), ground (arith, h))

module _ (f : TickFaults) (w : Cloud) where
  wanted_here : ComputeInstance → Option Status
  wanted_here i =
      wanted i.status (get_state w.provision_delay w.stop_delay w.now i.provider_id w.provider)

  wanted-coherent :
      (i : ComputeInstance)
      → coherent w i ≡ true
      → (allowed i.status (wanted_here i) ≡ true)
        × (coherent w (record i { status = after_wanted i.status (wanted_here i) }) ≡ true)
  unfolding wanted_here coherent agrees_with get_state
  wanted-coherent i h = elim (Option-cases (find_state i.provider_id w.provider)) [
    | inl e ↦ ground (arith, e, h)
    | inr (p, e) ↦
        simp (e, get_state, agrees_with)
          (wanted-agrees w.provision_delay w.stop_delay w.now i.status p.desired_state
            p.transition_at (simp (e, agrees_with) at h))
  ]

  pub reconcile-allowed :
      (i : ComputeInstance) → coherent w i ≡ true → allowed i.status (reconcile f w i) ≡ true
  unfolding reconcile allowed wanted_here
  reconcile-allowed i h = ground (arith, (wanted-coherent i h).0)

  settle_row-coherent :
      (i : ComputeInstance) → coherent w i ≡ true → coherent w (settle_row f w i) ≡ true
  unfolding settle_row reconcile wanted_here
  settle_row-coherent i h = elim (Option-cases (reconcile f w i)) [
    | inl e ↦ simp (e, settle_row) h
    | inr (s, e) ↦
        let r : wanted_here i ≡ some s = ground (arith, e) in
        simp (e, settle_row) (simp r at ((wanted-coherent i h).1))
  ]

  pub settle_rows-coherent :
      (l : List ComputeInstance)
      → All (λ (i : ComputeInstance). coherent w i ≡ true) l
      → All (λ (i : ComputeInstance). coherent w i ≡ true) (settle_rows f w l)
  unfolding settle_rows
  settle_rows-coherent [] h = tt
  settle_rows-coherent (i ∷ l) (a, h) = (settle_row-coherent i a, settle_rows-coherent l h)

  settle_row-pid : (i : ComputeInstance) → (settle_row f w i).provider_id ≡ i.provider_id
  unfolding settle_row
  settle_row-pid i = ground arith

  settle_rows-has_pid :
      (p : ℕ) (l : List ComputeInstance) → has_pid p (settle_rows f w l) ≡ has_pid p l
  unfolding settle_rows
  settle_rows-has_pid p [] = refl
  settle_rows-has_pid p (i ∷ l) = rw (settle_row-pid i, settle_rows-has_pid p l) refl

  pub settle_rows-own_pids : (l : List ComputeInstance) → own_pids (settle_rows f w l) ≡ own_pids l
  unfolding settle_rows own_pids
  settle_rows-own_pids [] = refl
  settle_rows-own_pids (i ∷ l) =
      rw (settle_row-pid i, settle_rows-has_pid i.provider_id l, settle_rows-own_pids l) refl
