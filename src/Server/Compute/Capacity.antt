-- ===== src/Server/Compute/Capacity.antt =====
-- The sums of a region against its capacity: internal/compute/service.go and reconciler.go
-- together.
use iaas_platform.Base.{
  ℕ, ◌≤◌, ◌≡◌, refl, sym, ap, ◌∙◌, inl, inr, true, none, some, Bool-cases, ◌&&◌, arith,
}
use iaas_platform.Base.Text.{Text, text_eq}
use iaas_platform.Server.Compute.{
  Cloud, OrgUsage, RegionCapacity, sum_active, sum_active_by_region, in_region, add_usage,
  get_region, exceeds, fits_int,
}
use iaas_platform.Server.Compute.Service.{Faults, Spec, enforce_capacity, new_row}
use iaas_platform.Server.Compute.System.{Reach}
use iaas_platform.Server.Compute.Requests.{Added}
use iaas_platform.Server.Compute.Limits.{UsesLess, int_safe, sum_active-append}
use iaas_platform.Server.Compute.Kept.{Reach-SameLimits, Reach-Bounded}
use mathlib.Core.Path.{subst}
use mathlib.Core.Option.{some-injective}
use iaas_platform.Base.Text.Laws.{text_eq_iff}

pub record SafeRegion (c : RegionCapacity) : Type 0 where
  pub cpu : c.cpu_cores ≤ int_safe
  pub mem : c.memory_mb ≤ int_safe
  pub disk : c.disk_gb ≤ int_safe

pub record WithinCapacity (c : RegionCapacity) (u : OrgUsage) : Type 0 where
  pub cpu : u.cpu_cores ≤ c.cpu_cores
  pub mem : u.memory_mb ≤ c.memory_mb
  pub disk : u.disk_gb ≤ c.disk_gb

WithinCapacity-UsesLess :
    (c : RegionCapacity) (u v : OrgUsage) → UsesLess u v → WithinCapacity c v → WithinCapacity c u
WithinCapacity-UsesLess c u v l h = ground arith

enforce_capacity-none :
    (f : Faults) (c : RegionCapacity) (org id user pid : ℕ) (s : Spec) (w : Cloud)
    → enforce_capacity f c s w ≡ none
    → (fits_int s.cpu && (fits_int s.mem && fits_int s.disk)) ≡ true
    → SafeRegion c
    → WithinCapacity c (sum_active_by_region s.region w.instances)
    → WithinCapacity c
        (add_usage (new_row id org user s pid) (sum_active_by_region s.region w.instances))
unfolding enforce_capacity new_row exceeds
enforce_capacity-none f c org id user pid s w e g q i = ground arith

abbrev Kept : RegionCapacity → Text → Cloud → Type 0
Kept c r w = WithinCapacity c (sum_active (in_region r) w.instances)

admitted-Kept :
    (c d : RegionCapacity) (r : Text) (f : Faults) (org user : ℕ) (s : Spec) (w v : Cloud)
    → SafeRegion c
    → get_region r w.regions ≡ some c
    → get_region s.region w.regions ≡ some d
    → Added f org user s d w v
    → Kept c r w
    → Kept c r v
unfolding new_row sum_active_by_region
admitted-Kept c d r f org user s w v safe k l a h =
    let app =
      sum_active-append (in_region r) w.instances (new_row w.next_id org user s a.pid) refl in
    elim (Bool-cases (text_eq s.region r)) [
      | inr e ↦ rw (a.rows, app.1 e) h
      | inl e ↦
          let same = (text_eq_iff s.region r).0 e in
          let one = some-injective d c (sym l ∙ ap (λ t. get_region t w.regions) same ∙ k) in
          rw (a.rows, app.0 e)
            (subst
              (λ t. WithinCapacity c (
                add_usage (new_row w.next_id org user s a.pid)
                  (sum_active (in_region t) w.instances)))
              same
              (enforce_capacity-none f c org w.next_id user a.pid s w
                (subst (λ z. enforce_capacity f z s w ≡ none) one a.capacity) a.fits safe
                (subst (λ t. Kept c t w) (sym same) h)))
    ]

-- A region whose active instances are within its capacity stays within it, through every sequence
-- of requests of any members of any organizations, ticks and delays, one after the other, whichever
-- calls of the database and the provider fail; where the capacities are at most 2 ^ 62.
pub capacity_kept :
    (c : RegionCapacity) (region : Text) {w v : Cloud}
    → get_region region w.regions ≡ some c
    → SafeRegion c
    → WithinCapacity c (sum_active_by_region region w.instances)
    → Reach w v
    → (get_region region v.regions ≡ some c)
      × WithinCapacity c (sum_active_by_region region v.instances)
unfolding sum_active_by_region
capacity_kept c region {w} {v} g safe h r = (
  ap (get_region region) ((Reach-SameLimits r).regions) ∙ g,
  Reach-Bounded w (in_region region) (λ i s. refl) (WithinCapacity c) (WithinCapacity-UsesLess c)
      (λ f org user s d x y k l a b.
        admitted-Kept c d region f org user s x y safe (ap (get_region region) k.regions ∙ g) l a b)
      r h,
)
