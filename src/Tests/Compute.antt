-- ===== src/Tests/Compute.antt =====
-- The instances of the server on concrete tables.
use iaas_platform.Base.{◌≡◌, refl, true, some, [], ◌∷◌, arith}
use iaas_platform.Base.Text.{lit, text_eq, pos, negsuc}
use iaas_platform.Api.{running, pending, stopped, terminated, stop}
use iaas_platform.Lifecycle.{can_transition, target}
use iaas_platform.Server.{found}
use iaas_platform.Server.Compute.{
  Cloud, ComputeInstance, RegionCapacity, get_quota, get_region, find_by_id, sum_active,
  sum_active_by_org, sum_active_by_region,
}
use iaas_platform.Server.Compute.Service.{CreateInstanceRequest, act}
use iaas_platform.Server.Compute.Reconciler.{tick}
use iaas_platform.Server.Compute.System.{creates, ticks, passes, move, Reach, here, next}
use iaas_platform.Server.Compute.Quotas.{SafeQuota, WithinQuota, quota_kept}
use iaas_platform.Server.Compute.Capacity.{SafeRegion, WithinCapacity, capacity_kept}
use iaas_platform.Server.Compute.Final.{
  no_faults, no_tick_faults, terminated_is_final, request_takes_effect,
}

abbrev pub vm : ComputeInstance
vm = record {
  id = 1;
  organization_id = 1;
  user_id = 1;
  name = lit "web";
  instance_type = lit "vm";
  status = running;
  region = lit "us-east-1";
  provider_id = 7;
  image = lit "debian-12";
  cpu_cores = 2;
  memory_mb = 2048;
  disk_gb = 20;
}

abbrev gone : ComputeInstance
gone = record vm { id = 2; status = terminated; provider_id = 8 }

abbrev east : RegionCapacity
east = record { region = lit "us-east-1"; cpu_cores = 64; memory_mb = 131072; disk_gb = 2000 }

abbrev pub cloud : Cloud
cloud = record {
  instances = vm ∷ gone ∷ [];
  provider = record { provider_id = 7; desired_state = pending; transition_at = 0 } ∷ [];
  quotas = [];
  regions = east ∷ [];
  provision_delay = 5000;
  stop_delay = 2000;
  next_id = 3;
  now = 10000;
  notices = [];
}

abbrev pub request : CreateInstanceRequest
request = record {
  name = lit "db";
  instance_type = [];
  region = [];
  image = [];
  cpu_cores = pos 4;
  memory_mb = pos 8192;
  disk_gb = negsuc 0;
}

-- A member creates an instance, and the reconciler settles it.
abbrev later : Cloud
later =
    move (ticks no_tick_faults)
      (move (passes 6000) (move (creates no_faults (found tt) 1 1 request (some 9)) cloud))

later-Reach : Reach cloud later
later-Reach =
    next (next (next here (creates no_faults (found tt) 1 1 request (some 9))) (passes 6000))
      (ticks no_tick_faults)

cloud-SafeQuota : SafeQuota (get_quota 1 cloud.quotas)
unfolding get_quota
cloud-SafeQuota = ground arith

cloud-WithinQuota : WithinQuota (get_quota 1 cloud.quotas) (sum_active_by_org 1 cloud.instances)
unfolding get_quota sum_active_by_org sum_active
cloud-WithinQuota = ground arith

quota_kept_example : WithinQuota (get_quota 1 later.quotas) (sum_active_by_org 1 later.instances)
quota_kept_example = quota_kept 1 cloud-SafeQuota cloud-WithinQuota later-Reach

east-SafeRegion : SafeRegion east
east-SafeRegion = ground arith

east-found : get_region (lit "us-east-1") cloud.regions ≡ some east
unfolding get_region text_eq lit
east-found = refl

cloud-WithinCapacity : WithinCapacity east (sum_active_by_region (lit "us-east-1") cloud.instances)
unfolding sum_active_by_region sum_active text_eq lit
cloud-WithinCapacity = ground arith

capacity_kept_example :
    (get_region (lit "us-east-1") later.regions ≡ some east)
    × WithinCapacity east (sum_active_by_region (lit "us-east-1") later.instances)
capacity_kept_example =
    capacity_kept east (lit "us-east-1") east-found east-SafeRegion cloud-WithinCapacity later-Reach

gone-found : find_by_id 2 cloud.instances ≡ some gone
unfolding find_by_id
gone-found = refl

terminated_is_final_example : find_by_id 2 later.instances ≡ some gone
terminated_is_final_example = terminated_is_final 2 gone refl gone-found later-Reach

vm-found : find_by_id 1 cloud.instances ≡ some vm
unfolding find_by_id
vm-found = refl

stop_allowed : can_transition running (target stop) ≡ true
unfolding can_transition target
stop_allowed = refl

request_takes_effect_example :
    find_by_id 1
      (tick no_tick_faults
        (move (passes 2500) (act no_faults (found tt) stop 1 1 cloud).0)).0.instances
    ≡ some (record vm { status = stopped })
request_takes_effect_example =
    request_takes_effect stop 1 1 2500 vm cloud vm-found refl stop_allowed (omega arith)
