-- ===== src/Server/Compute/Quotas.antt =====
-- The sums of an organization against its quota: internal/compute/service.go and reconciler.go
-- together.
use iaas_platform.Base.{
  ℕ, ◌≤◌, ◌≡◌, refl, ap, sym, inl, inr, true, none, Bool-cases, ◌&&◌, arith, ◌==◌, ==_iff,
}
use mathlib.Core.Path.{subst}
use iaas_platform.Server.Compute.{
  Cloud, OrgUsage, Quota, RegionCapacity, sum_active, sum_active_by_org, in_org, add_usage,
  get_quota, exceeds, fits_int,
}
use iaas_platform.Server.Compute.Service.{Faults, Spec, enforce_quota, new_row}
use iaas_platform.Server.Compute.System.{Reach}
use iaas_platform.Server.Compute.Requests.{Added}
use iaas_platform.Server.Compute.Limits.{UsesLess, int_safe, sum_active-append}
use iaas_platform.Server.Compute.Kept.{Reach-SameLimits, Reach-Bounded}

pub record SafeQuota (q : Quota) : Type 0 where
  pub instances : q.max_instances ≤ int_safe
  pub cpu : q.max_cpu_cores ≤ int_safe
  pub mem : q.max_memory_mb ≤ int_safe
  pub disk : q.max_disk_gb ≤ int_safe

pub record WithinQuota (q : Quota) (u : OrgUsage) : Type 0 where
  pub count : u.count ≤ q.max_instances
  pub cpu : u.cpu_cores ≤ q.max_cpu_cores
  pub mem : u.memory_mb ≤ q.max_memory_mb
  pub disk : u.disk_gb ≤ q.max_disk_gb

WithinQuota-UsesLess :
    (q : Quota) (u v : OrgUsage) → UsesLess u v → WithinQuota q v → WithinQuota q u
WithinQuota-UsesLess q u v l h = ground arith

enforce_quota-none :
    (f : Faults) (org id user pid : ℕ) (s : Spec) (w : Cloud)
    → enforce_quota f org s w ≡ none
    → (fits_int s.cpu && (fits_int s.mem && fits_int s.disk)) ≡ true
    → SafeQuota (get_quota org w.quotas)
    → WithinQuota (get_quota org w.quotas) (sum_active_by_org org w.instances)
    → WithinQuota
        (get_quota org w.quotas)
        (add_usage (new_row id org user s pid) (sum_active_by_org org w.instances))
unfolding enforce_quota new_row exceeds
enforce_quota-none f org id user pid s w e g q i = ground arith

abbrev Kept : Quota → ℕ → Cloud → Type 0
Kept q org w = WithinQuota q (sum_active (in_org org) w.instances)

admitted_own-Kept :
    (q : Quota) (f : Faults) (org user : ℕ) (s : Spec) (c : RegionCapacity) (w v : Cloud)
    → SafeQuota q
    → q ≡ get_quota org w.quotas
    → Added f org user s c w v
    → Kept q org w
    → Kept q org v
unfolding sum_active_by_org new_row
admitted_own-Kept q f org user s c w v safe e a h =
    let app =
      sum_active-append (in_org org) w.instances (new_row w.next_id org user s a.pid) refl in
    rw (a.rows, app.0 (ground arith), e)
      (enforce_quota-none f org w.next_id user a.pid s w a.quota a.fits (subst SafeQuota e safe)
        (subst (λ z. Kept z org w) e h))

admitted-Kept :
    (q : Quota) (f : Faults) (org org' user : ℕ) (s : Spec) (c : RegionCapacity) (w v : Cloud)
    → SafeQuota q
    → q ≡ get_quota org w.quotas
    → Added f org' user s c w v
    → Kept q org w
    → Kept q org v
unfolding new_row
admitted-Kept q f org org' user s c w v safe k a h =
    let app =
      sum_active-append (in_org org) w.instances (new_row w.next_id org' user s a.pid) refl in
    elim (Bool-cases (org' == org)) [
      | inr e ↦ rw (a.rows, app.1 e) h
      | inl e ↦
          admitted_own-Kept q f org user s c w v safe k
            (subst (λ o. Added f o user s c w v) ((==_iff org' org).0 e) a) h
    ]

-- An organization whose active instances are within its quota stays within it, through every
-- sequence of requests of any members, ticks and delays, one after the other, whichever calls of
-- the database and the provider fail; where the limits of the quota are at most 2 ^ 62.
pub quota_kept :
    (org : ℕ) {w v : Cloud}
    → SafeQuota (get_quota org w.quotas)
    → WithinQuota (get_quota org w.quotas) (sum_active_by_org org w.instances)
    → Reach w v
    → WithinQuota (get_quota org v.quotas) (sum_active_by_org org v.instances)
unfolding sum_active_by_org
quota_kept org {w} {v} safe h r =
    let q = get_quota org w.quotas in
    rw ((Reach-SameLimits r).quotas) (
      Reach-Bounded w (in_org org) (λ i s. refl) (WithinQuota q) (WithinQuota-UsesLess q)
        (λ f org' user s c x y k g a b.
          admitted-Kept q f org org' user s c x y safe (ap (get_quota org) (sym k.quotas)) a b)
        r h)
