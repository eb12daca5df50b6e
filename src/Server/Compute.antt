-- ===== src/Server/Compute.antt =====
-- The instances of internal/compute and their tables: the rows of internal/database/compute.go,
-- quota.go, capacity.go and provider.go with the queries over them.
-- The `id` of a row is its primary key. Times are in milliseconds. `cpu_cores`, `memory_mb` and
-- `disk_gb` are columns of type INT, the sums and limits are BIGINT and `int64`. `port`, `ip_address` and the
-- times of creation are left out.
pub mod Provider
pub mod Service
pub mod Reconciler
pub mod System
pub mod Requests
pub mod Limits
pub mod Kept
pub mod Quotas
pub mod Capacity
pub mod Settling
pub mod Found
pub mod Final
pub mod Coherent
pub mod Calls
pub mod Growing
pub mod Runs
pub mod Follows
pub mod Overlapping
pub mod Overshoot
use iaas_platform.Base.{
  ℕ, suc, ◌+◌, Bool, true, false, not, ◌&&◌, Option, none, some, List, [], ◌∷◌, find, ltb, leb,
  ◌==◌, if◌then◌else◌,
}
use iaas_platform.Base.Text.{Text, text_eq, lit}
use iaas_platform.Api.{
  Status, pending, running, stopping, stopped, terminating, terminated, failed, unknown,
}
use iaas_platform.Server.{Lookup, found, missing, broken}

pub record ComputeInstance : Type 0 where
  pub id : ℕ
  pub organization_id : ℕ
  pub user_id : ℕ
  pub name : Text
  pub instance_type : Text
  pub status : Status
  pub region : Text
  pub provider_id : ℕ
  pub image : Text
  pub cpu_cores : ℕ
  pub memory_mb : ℕ
  pub disk_gb : ℕ

pub record OrgUsage : Type 0 where
  pub count : ℕ
  pub cpu_cores : ℕ
  pub memory_mb : ℕ
  pub disk_gb : ℕ

pub record Quota : Type 0 where
  pub max_instances : ℕ
  pub max_cpu_cores : ℕ
  pub max_memory_mb : ℕ
  pub max_disk_gb : ℕ

pub record RegionCapacity : Type 0 where
  pub region : Text
  pub cpu_cores : ℕ
  pub memory_mb : ℕ
  pub disk_gb : ℕ

-- A row of `provider_state`.
pub record ProviderState : Type 0 where
  pub provider_id : ℕ
  pub desired_state : Status
  pub transition_at : ℕ

-- The status changes that are recorded in the audit trail and emitted to the webhooks.
pub data Notice : Type 0 where
  created start_asked stop_asked terminate_asked : ℕ → Notice
  changed : ℕ → Status → Notice

pub record Cloud : Type 0 where
  pub instances : List ComputeInstance
  pub provider : List ProviderState
  pub quotas : List (ℕ × Quota)
  pub regions : List RegionCapacity
  pub provision_delay : ℕ
  pub stop_delay : ℕ
  pub next_id : ℕ
  pub now : ℕ
  pub notices : List Notice

abbrev pub default_quota : Quota
default_quota = record {
  max_instances = 20;
  max_cpu_cores = 16;
  max_memory_mb = 32768;
  max_disk_gb = 500;
}

unfoldable pub same_status : Status → Status → Bool
same_status pending pending = true
same_status running running = true
same_status stopping stopping = true
same_status stopped stopped = true
same_status terminating terminating = true
same_status terminated terminated = true
same_status failed failed = true
same_status (unknown s) (unknown t) = text_eq s t
same_status _ _ = false

-- `status <> 'terminated'`
abbrev pub is_active : Status → Bool
is_active s = elim s [ terminated ↦ false | _ ↦ true ]

-- `FindByID`
unfoldable pub find_by_id : ℕ → List ComputeInstance → Option ComputeInstance
find_by_id id l = find (λ (i : ComputeInstance). i.id == id) l

-- `UpdateStatus`: the row with this key, if there is one.
unfoldable pub update_status : ℕ → Status → List ComputeInstance → List ComputeInstance
update_status id s [] = []
update_status id s (i ∷ l) =
    let rest = update_status id s l in if i.id == id then record i { status = s } ∷ l else i ∷ rest

abbrev pub no_usage : OrgUsage
no_usage = record { count = 0; cpu_cores = 0; memory_mb = 0; disk_gb = 0 }

abbrev pub add_usage : ComputeInstance → OrgUsage → OrgUsage
add_usage i u = record {
  count = u.count + 1;
  cpu_cores = u.cpu_cores + i.cpu_cores;
  memory_mb = u.memory_mb + i.memory_mb;
  disk_gb = u.disk_gb + i.disk_gb;
}

-- The sums over the active rows that pass a test.
unfoldable pub sum_active : (ComputeInstance → Bool) → List ComputeInstance → OrgUsage
sum_active p [] = no_usage
sum_active p (i ∷ l) =
    let rest = sum_active p l in if p i && is_active i.status then add_usage i rest else rest

abbrev pub in_org : ℕ → ComputeInstance → Bool
in_org org i = i.organization_id == org

abbrev pub in_region : Text → ComputeInstance → Bool
in_region r i = text_eq i.region r

-- `SumActiveByOrg`, and `SumActiveByRegion`, which has no count.
unfoldable pub sum_active_by_org : ℕ → List ComputeInstance → OrgUsage
unfolding sum_active
sum_active_by_org org l = sum_active (in_org org) l

unfoldable pub sum_active_by_region : Text → List ComputeInstance → OrgUsage
unfolding sum_active
sum_active_by_region r l = sum_active (in_region r) l

-- `QuotaRepository.Get`: without a row, the default.
unfoldable pub get_quota : ℕ → List (ℕ × Quota) → Quota
get_quota org [] = default_quota
get_quota org ((o, q) ∷ l) = let rest = get_quota org l in if o == org then q else rest

-- `GetRegion`
unfoldable pub get_region : Text → List RegionCapacity → Option RegionCapacity
get_region r l = find (λ (c : RegionCapacity). text_eq c.region r) l

abbrev pub int64_limit : ℕ
int64_limit = 9223372036854775808

-- `used + asked > limit` on `int64`, for numbers that are not negative: a sum from 2 ^ 63 on is a
-- negative number, and so does not exceed the limit.
unfoldable pub exceeds : ℕ → ℕ → ℕ → Bool
exceeds used asked limit = ltb (used + asked) int64_limit && ltb limit (used + asked)

-- A column of type INT takes the value.
abbrev pub fits_int : ℕ → Bool
fits_int n = ltb n 2147483648
