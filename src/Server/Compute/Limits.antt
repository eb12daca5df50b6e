-- ===== src/Server/Compute/Limits.antt =====
-- The sums of the active instances under each change of the rows.
use iaas_platform.Base.{
  ℕ, ◌≤◌, ◌≡◌, inl, inr, Bool, true, false, some, List, [], ◌∷◌, ◌++◌, arith, Option-cases,
}
use iaas_platform.Api.{Status}
use iaas_platform.Server.Compute.{
  Cloud, ComputeInstance, OrgUsage, is_active, find_by_id, update_status, sum_active, add_usage,
}
use iaas_platform.Server.Compute.Reconciler.{TickFaults, reconcile, settle_row, settle_rows}

abbrev pub Test : Type 0
Test = ComputeInstance → Bool

pub record UsesLess (u v : OrgUsage) : Type 0 where
  pub count : u.count ≤ v.count
  pub cpu : u.cpu_cores ≤ v.cpu_cores
  pub mem : u.memory_mb ≤ v.memory_mb
  pub disk : u.disk_gb ≤ v.disk_gb

pub UsesLess-refl : (u : OrgUsage) → UsesLess u u
UsesLess-refl u = ground arith

-- The tests that are used read no status.
abbrev pub IgnoresStatus : Test → Type 0
IgnoresStatus p = (i : ComputeInstance) (s : Status) → p (record i { status = s }) ≡ p i

pub sum_active-append :
    (p : Test) (l : List ComputeInstance) (i : ComputeInstance)
    → is_active i.status ≡ true
    → (p i ≡ true → sum_active p (l ++ (i ∷ [])) ≡ add_usage i (sum_active p l))
      × (p i ≡ false → sum_active p (l ++ (i ∷ [])) ≡ sum_active p l)
unfolding sum_active
sum_active-append p [] i a = (λ h. ground arith, λ h. ground arith)
sum_active-append p (x ∷ l) i a =
    let ih = sum_active-append p l i a in (λ h. ground (arith, ih.0 h), λ h. ground (arith, ih.1 h))

pub sum_active-update_status :
    (p : Test) (id : ℕ) (s : Status) (l : List ComputeInstance) (i : ComputeInstance)
    → IgnoresStatus p
    → find_by_id id l ≡ some i
    → is_active i.status ≡ true
    → UsesLess (sum_active p (update_status id s l)) (sum_active p l)
unfolding sum_active update_status find_by_id
sum_active-update_status p id s [] i ig e a = cc
sum_active-update_status p id s (x ∷ l) i ig e a =
    ground (arith, ig x s, sum_active-update_status p id s l i ig)

pub settle_rows-UsesLess :
    (p : Test) (f : TickFaults) (w : Cloud) (l : List ComputeInstance)
    → IgnoresStatus p
    → UsesLess (sum_active p (settle_rows f w l)) (sum_active p l)
unfolding sum_active settle_rows settle_row reconcile
settle_rows-UsesLess p f w [] ig = ground arith
settle_rows-UsesLess p f w (x ∷ l) ig = elim (Option-cases (reconcile f w x)) [
  | inl e ↦ rw (e, settle_row) (ground (arith, settle_rows-UsesLess p f w l ig))
  | inr (s, e) ↦ rw (e, settle_row) (ground (arith, e, ig x s, settle_rows-UsesLess p f w l ig))
]

-- A limit so small that no sum under it, plus a request, leaves `int64`.
abbrev pub int_safe : ℕ
int_safe = 4611686018427387904
