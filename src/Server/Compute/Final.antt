-- ===== src/Server/Compute/Final.antt =====
-- What becomes of one instance: internal/compute/service.go, sim_provider.go and reconciler.go.
use iaas_platform.Base.{
  ℕ, ◌+◌, ◌≤◌, ◌≡◌, refl, sym, ap, ◌∙◌, inl, inr, true, false, some, arith, ◌==◌, Bool-cases,
  ==_iff,
}
use mathlib.Core.Path.{subst}
use mathlib.Core.Option.{some-injective}
use iaas_platform.Api.{Status, running, stopped, terminated, Action, start, stop, terminate}
use iaas_platform.Lifecycle.{can_transition, target}
use iaas_platform.Server.{found}
use iaas_platform.Server.Compute.{
  Cloud, ComputeInstance, is_active, find_by_id, update_status, same_status,
}
use iaas_platform.Server.Compute.Provider.{report}
use iaas_platform.Server.Compute.Service.{Faults, act, act_on, carry_out, desired, get}
use iaas_platform.Server.Compute.Reconciler.{TickFaults, reconcile, wanted, settle_row, tick}
use iaas_platform.Server.Compute.System.{
  Move, creates, acts, ticks, passes, move, Reach, here, next,
}
use iaas_platform.Server.Compute.Requests.{Restated, create-rows, act-rows, find_by_id-id}
use iaas_platform.Server.Compute.Found.{
  find-settle_rows, find-append, find-update_status, find-update_status_other, get_state-set_state,
}

abbrev Holds : ℕ → ComputeInstance → Cloud → Type 0
Holds id i w = find_by_id id w.instances ≡ some i

settle_row-terminated :
    (f : TickFaults) (w : Cloud) (i : ComputeInstance)
    → i.status ≡ terminated
    → settle_row f w i ≡ i
unfolding settle_row reconcile
settle_row-terminated f w i e = ground (arith, e)

status_change-Holds :
    (id : ℕ) (i : ComputeInstance) (w v : Cloud)
    → i.status ≡ terminated
    → Holds id i w
    → Restated w v
    → Holds id i v
status_change-Holds id i w v e h g = elim (Bool-cases (id == g.id)) [
  | inr n ↦ rw g.rows (find-update_status_other id g.id g.status w.instances n ∙ h)
  | inl y ↦
      let row =
        some-injective g.row i
          (sym g.finds ∙ ap (λ n. find_by_id n w.instances) (sym ((==_iff id g.id).0 y)) ∙ h) in
      ground (arith, ap (λ z. z.status) row, e, g.was_active)
]

move-terminated :
    (m : Move) (id : ℕ) (i : ComputeInstance) (w : Cloud)
    → i.status ≡ terminated
    → Holds id i w
    → Holds id i (move m w)
unfolding move tick
move-terminated (creates f m org user r pid) id i w e h = elim (create-rows f m org user r pid w) [
  | inl k ↦ rw k h
  | inr (c, g, a) ↦ rw a.rows (find-append id w.instances _ i h)
]
move-terminated (acts f m a org id') id i w e h = elim (act-rows f m a org id' w) [
  | inl k ↦ rw k h
  | inr g ↦ status_change-Holds id i w (act f m a org id' w).0 e h g
]
move-terminated (ticks f) id i w e h = elim (Bool-cases f.list) [
  | inl l ↦ rw (l, tick) h
  | inr l ↦
      rw (l, tick)
        (find-settle_rows f w id w.instances i h ∙ ap some (settle_row-terminated f w i e))
]
move-terminated (passes ms) id i w e h = h

-- A terminated instance keeps its row as it is, through every sequence of requests, ticks and
-- delays, whichever calls fail.
pub terminated_is_final :
    (id : ℕ) (i : ComputeInstance) {w v : Cloud}
    → i.status ≡ terminated
    → find_by_id id w.instances ≡ some i
    → Reach w v
    → find_by_id id v.instances ≡ some i
terminated_is_final id i e h here = h
terminated_is_final id i e h (next {v} r m) =
    move-terminated m id i v e (terminated_is_final id i e h r)

-- Where each request leads.
abbrev pub settled : Action → Status
settled start = running
settled stop = stopped
settled terminate = terminated

-- How long it takes at the provider.
abbrev pub delay_of : Action → Cloud → ℕ
delay_of start w = w.provision_delay
delay_of stop w = w.stop_delay
delay_of terminate w = 0

abbrev pub no_faults : Faults
no_faults = record {
  region = false;
  quota = false;
  usage = false;
  region_usage = false;
  provision = false;
  insert = false;
  cleanup = false;
  find = false;
  provider = false;
  update = false;
}

abbrev pub no_tick_faults : TickFaults
no_tick_faults = record { list = false; query = λ id. false; update = λ id. false }

act_on-guarded :
    (f : Faults) (a : Action) (i : ComputeInstance) (w : Cloud)
    → can_transition i.status (target a) ≡ true
    → act_on f a i w ≡ carry_out f a i w
unfolding act_on can_transition target
act_on-guarded f start i w e = rw e refl
act_on-guarded f stop i w e = rw e refl
act_on-guarded f terminate i w e = ground (arith, e)

get-own :
    (id : ℕ) (i : ComputeInstance) (w : Cloud)
    → Holds id i w
    → get no_faults i.organization_id id w ≡ found i
unfolding get
get-own id i w h = rw (h, get) (ground arith)

act-own :
    (a : Action) (id : ℕ) (i : ComputeInstance) (w : Cloud)
    → Holds id i w
    → can_transition i.status (target a) ≡ true
    → act no_faults (found tt) a i.organization_id id w ≡ carry_out no_faults a i w
unfolding act
act-own a id i w h c = rw (get-own id i w h, act) (act_on-guarded no_faults a i w c)

-- The state of the provider and the row after an accepted request and a delay.
abbrev asked_for : Action → ComputeInstance → ℕ → Cloud → Cloud
asked_for a i ms w = let v = (carry_out no_faults a i w).0 in record v { now = v.now + ms }

report-settled :
    (a : Action) (ms : ℕ) (w : Cloud)
    → delay_of a w ≤ ms
    → wanted (target a) (report w.provision_delay w.stop_delay (w.now + ms) (desired a) w.now)
      ≡ some (settled a)
unfolding wanted report target same_status
report-settled start ms w d = ground arith
report-settled stop ms w d = ground arith
report-settled terminate ms w d = ground arith

target-is_active : (a : Action) → is_active (target a) ≡ true
unfolding target
target-is_active start = refl
target-is_active stop = refl
target-is_active terminate = refl

reconcile-asked_for :
    (a : Action) (i : ComputeInstance) (ms : ℕ) (w : Cloud)
    → delay_of a w ≤ ms
    → reconcile no_tick_faults (asked_for a i ms w) (record i { status = target a })
      ≡ some (settled a)
unfolding reconcile carry_out
reconcile-asked_for a i ms w d =
    rw
      (
        target-is_active a,
        reconcile,
        get_state-set_state w.provision_delay w.stop_delay (w.now + ms) i.provider_id (desired a)
            w.now w.provider,
      )
      (report-settled a ms w d)

settle_row-asked_for :
    (a : Action) (i : ComputeInstance) (ms : ℕ) (w : Cloud)
    → delay_of a w ≤ ms
    → settle_row no_tick_faults (asked_for a i ms w) (record i { status = target a })
      ≡ record i { status = settled a }
unfolding settle_row
settle_row-asked_for a i ms w d = rw (reconcile-asked_for a i ms w d, settle_row) refl

asked_for-Holds :
    (a : Action) (id : ℕ) (i : ComputeInstance) (ms : ℕ) (w : Cloud)
    → Holds id i w
    → Holds id (record i { status = target a }) (asked_for a i ms w)
unfolding carry_out
asked_for-Holds a id i ms w h =
    subst
      (λ n.
        find_by_id id (update_status n (target a) w.instances)
        ≡ some (record i { status = target a }))
      (sym (find_by_id-id id w.instances i h)) (find-update_status id (target a) w.instances i h)

-- A request that the transition table allows takes effect: where no call fails, the next pass of the
-- reconciler after the provider's delay brings the instance of a member's organization to
-- `running` after `Start`, to `stopped` after `Stop`, to `terminated` after `Terminate`, and changes
-- nothing else of its row.
pub request_takes_effect :
    (a : Action) (org id ms : ℕ) (i : ComputeInstance) (w : Cloud)
    → find_by_id id w.instances ≡ some i
    → i.organization_id ≡ org
    → can_transition i.status (target a) ≡ true
    → delay_of a w ≤ ms
    → find_by_id id
        (tick no_tick_faults (move (passes ms) (act no_faults (found tt) a org id w).0)).0.instances
      ≡ some (record i { status = settled a })
unfolding tick move
request_takes_effect a org id ms i w h o c d =
    subst
      (λ z.
        find_by_id id
          (tick no_tick_faults (move (passes ms) (act no_faults (found tt) a z id w).0)).0.instances
        ≡ some (record i { status = settled a }))
      o
      (rw (act-own a id i w h c) (
        find-settle_rows no_tick_faults (asked_for a i ms w) id (asked_for a i ms w).instances
          (record i { status = target a }) (asked_for-Holds a id i ms w h)
        ∙ ap some (settle_row-asked_for a i ms w d)))
