-- ===== src/Server/Compute/Reconciler.antt =====
-- `Tick` of internal/compute/reconciler.go, over the rows of the instances. Each update of a status
-- is by the row's key, so the pass replaces each row where it stands.
use iaas_platform.Base.{ℕ, suc, Bool, not, Option, none, some, List, [], ◌∷◌, ◌||◌, if◌then◌else◌}
use iaas_platform.Api.{Status, failed}
use iaas_platform.Server.{Lookup, found, missing, broken}
use iaas_platform.Server.Compute.{Cloud, ComputeInstance, Notice, changed, same_status, is_active}
use iaas_platform.Server.Compute.Provider.{get_state}

-- Which calls of a tick fail: the list, and for each instance the query and the update.
pub record TickFaults : Type 0 where
  pub list : Bool
  pub query : ℕ → Bool
  pub update : ℕ → Bool

-- The status that the provider's answer asks for, where it is another one.
unfoldable pub wanted : Status → Lookup Status → Option Status
unfolding same_status
wanted s missing = if same_status s failed then none else some failed
wanted s broken = none
wanted s (found t) = if same_status t s then none else some t

-- The status that is written for an instance, if any.
unfoldable pub reconcile : TickFaults → Cloud → ComputeInstance → Option Status
unfolding wanted get_state
reconcile f w i =
    if f.query i.id || f.update i.id || not (is_active i.status)
    then none
    else wanted i.status (get_state w.provision_delay w.stop_delay w.now i.provider_id w.provider)

unfoldable pub settle_row : TickFaults → Cloud → ComputeInstance → ComputeInstance
unfolding reconcile
settle_row f w i = elim (reconcile f w i) [ none ↦ i | some s ↦ record i { status = s } ]

unfoldable pub noticed : TickFaults → Cloud → ComputeInstance → List Notice → List Notice
unfolding reconcile
noticed f w i l = elim (reconcile f w i) [ none ↦ l | some s ↦ changed i.id s ∷ l ]

-- The rows of `ListActive` in their order.
unfoldable pub settle_rows : TickFaults → Cloud → List ComputeInstance → List ComputeInstance
unfolding settle_row
settle_rows f w [] = []
settle_rows f w (i ∷ l) = settle_row f w i ∷ settle_rows f w l

unfoldable pub tick_notices : TickFaults → Cloud → List ComputeInstance → List Notice → List Notice
tick_notices f w [] acc = acc
tick_notices f w (i ∷ l) acc = tick_notices f w l (noticed f w i acc)

-- `changed`
unfoldable pub count_changed : TickFaults → Cloud → List ComputeInstance → ℕ
unfolding reconcile
count_changed f w [] = 0
count_changed f w (i ∷ l) = elim (reconcile f w i) [
  | none ↦ count_changed f w l
  | some _ ↦ suc (count_changed f w l)
]

unfoldable pub tick : TickFaults → Cloud → Cloud × Option ℕ
unfolding settle_rows tick_notices count_changed
tick f w = if f.list then (w, none) else (
  record w {
    instances = settle_rows f w w.instances;
    notices = tick_notices f w w.instances w.notices;
  },
  some (count_changed f w w.instances),
)
