-- ===== src/Server/Compute/Service.antt =====
-- `Create`, `Get`, `Start`, `Stop` and `Terminate` of internal/compute/service.go. Whether a call of
-- the database or of the provider fails is given by `Faults`; the outcome of the membership check
-- is an argument.
use iaas_platform.Base.{
  ℕ, suc, zero, Bool, not, ◌&&◌, ◌||◌, Option, none, some, [], ◌∷◌, ◌++◌, ◌==◌, if◌then◌else◌,
}
use iaas_platform.Base.Text.{Text, lit, or_text, ℤ, pos, negsuc}
use iaas_platform.Api.{Status, pending, stopping, terminated, Action, start, stop, terminate}
use iaas_platform.Lifecycle.{can_transition, target}
use iaas_platform.Server.{Lookup, found, missing, broken}
use iaas_platform.Server.Compute.{
  Cloud, ComputeInstance, RegionCapacity, Notice, created, start_asked, stop_asked, terminate_asked,
  find_by_id, update_status, sum_active_by_org, sum_active_by_region, get_quota, get_region,
  exceeds, fits_int,
}
use iaas_platform.Server.Compute.Provider.{set_state}

-- The calls that fail.
pub record Faults : Type 0 where
  pub region : Bool
  pub quota : Bool
  pub usage : Bool
  pub region_usage : Bool
  pub provision : Bool
  pub insert : Bool
  pub cleanup : Bool
  pub find : Bool
  pub provider : Bool
  pub update : Bool

pub data Error : Type 0 where
  not_in_org not_found unknown_region quota_exceeded insufficient_capacity : Error
  invalid_transition internal : Error

pub data Outcome : Type 0 where
  done : Outcome
  refused : Error → Outcome

-- The fields of the request that the service reads.
pub record CreateInstanceRequest : Type 0 where
  pub name : Text
  pub instance_type : Text
  pub region : Text
  pub image : Text
  pub cpu_cores : ℤ
  pub memory_mb : ℤ
  pub disk_gb : ℤ

-- `if n <= 0 { n = other }`
unfoldable pub positive_or : ℤ → ℕ → ℕ
positive_or (pos zero) other = other
positive_or (pos (suc n)) other = suc n
positive_or (negsuc n) other = other

-- The request with its defaults.
pub record Spec : Type 0 where
  pub name : Text
  pub instance_type : Text
  pub region : Text
  pub image : Text
  pub cpu : ℕ
  pub mem : ℕ
  pub disk : ℕ

unfoldable pub spec_of : CreateInstanceRequest → Spec
unfolding positive_or
spec_of r = record {
  name = r.name;
  instance_type = or_text r.instance_type (lit "vm");
  region = or_text r.region (lit "us-east-1");
  image = or_text r.image (lit "debian-12");
  cpu = positive_or r.cpu_cores 1;
  mem = positive_or r.memory_mb 1024;
  disk = positive_or r.disk_gb 10;
}

-- `enforceQuota`
unfoldable pub enforce_quota : Faults → ℕ → Spec → Cloud → Option Error
unfolding get_quota sum_active_by_org exceeds
enforce_quota f org s w =
    let q = get_quota org w.quotas in
    let u = sum_active_by_org org w.instances in
    if f.quota || f.usage
    then some internal
    else if exceeds u.count 1 q.max_instances
        || (exceeds u.cpu_cores s.cpu q.max_cpu_cores
            || (exceeds u.memory_mb s.mem q.max_memory_mb
                || exceeds u.disk_gb s.disk q.max_disk_gb))
    then some quota_exceeded
    else none

-- `enforceCapacity`
unfoldable pub enforce_capacity : Faults → RegionCapacity → Spec → Cloud → Option Error
unfolding sum_active_by_region exceeds
enforce_capacity f c s w =
    let u = sum_active_by_region s.region w.instances in
    if f.region_usage
    then some internal
    else if exceeds u.cpu_cores s.cpu c.cpu_cores
        || (exceeds u.memory_mb s.mem c.memory_mb || exceeds u.disk_gb s.disk c.disk_gb)
    then some insufficient_capacity
    else none

unfoldable pub new_row : ℕ → ℕ → ℕ → Spec → ℕ → ComputeInstance
new_row id org user s pid = record {
  id = id;
  organization_id = org;
  user_id = user;
  name = s.name;
  instance_type = s.instance_type;
  status = pending;
  region = s.region;
  provider_id = pid;
  image = s.image;
  cpu_cores = s.cpu;
  memory_mb = s.mem;
  disk_gb = s.disk;
}

-- The end of `Create`: the insert, and where it fails the cleanup at the provider.
unfoldable pub insert_row : Faults → ℕ → ℕ → Spec → ℕ → Cloud → Cloud × Outcome
unfolding new_row set_state
insert_row f org user s pid w =
    if f.insert || not (fits_int s.cpu && (fits_int s.mem && fits_int s.disk))
    then (
      if f.cleanup then w else record w { provider = set_state pid terminated w.now w.provider },
      refused internal,
    )
    else (
      record w {
        instances = w.instances ++ (new_row w.next_id org user s pid ∷ []);
        next_id = suc w.next_id;
        notices = created w.next_id ∷ w.notices;
      },
      done,
    )

-- `Provision`, with the identifier that `newProviderID` made, if it could.
unfoldable pub provision : Faults → ℕ → ℕ → Spec → Option ℕ → Cloud → Cloud × Outcome
unfolding set_state insert_row
provision f org user s none w = (w, refused internal)
provision f org user s (some pid) w =
    if f.provision
    then (w, refused internal)
    else insert_row f org user s pid
        (record w { provider = set_state pid pending w.now w.provider })

-- The checks of `Create` after the region was looked up.
unfoldable pub create_in :
    Faults → RegionCapacity → ℕ → ℕ → Spec → Option ℕ → Cloud → Cloud × Outcome
unfolding enforce_quota enforce_capacity provision
create_in f c org user s pid w = elim (enforce_quota f org s w) [
  | some e ↦ (w, refused e)
  | none ↦ elim (enforce_capacity f c s w) [
    | some e ↦ (w, refused e)
    | none ↦ provision f org user s pid w
  ]
]

-- A check of `FindMember` that lets the rest run for a member.
abbrev pub for_member : Lookup (Unit {0}) → Cloud → Cloud × Outcome → Cloud × Outcome
for_member (found _) w k = k
for_member missing w k = (w, refused not_in_org)
for_member broken w k = (w, refused internal)

unfoldable pub create :
    Faults → Lookup (Unit {0}) → ℕ → ℕ → CreateInstanceRequest → Option ℕ → Cloud → Cloud × Outcome
unfolding spec_of get_region create_in
create f m org user r pid w = for_member m w (
    if f.region then (w, refused internal) else elim (get_region (spec_of r).region w.regions) [
      | none ↦ (w, refused unknown_region)
      | some c ↦ create_in f c org user (spec_of r) pid w
    ])

-- `Get`, after the membership check.
unfoldable pub get : Faults → ℕ → ℕ → Cloud → Lookup ComputeInstance
unfolding find_by_id
get f org id w = if f.find then broken else elim (find_by_id id w.instances) [
  | none ↦ missing
  | some i ↦ if i.organization_id == org then found i else missing
]

-- The provider's state that each request asks for: `Terminate` is immediate.
abbrev pub desired : Action → Status
desired start = pending
desired stop = stopping
desired terminate = terminated

abbrev pub asked : Action → ℕ → Notice
asked start id = start_asked id
asked stop id = stop_asked id
asked terminate id = terminate_asked id

-- The provider's call, the update of the status, and the notice.
unfoldable pub carry_out : Faults → Action → ComputeInstance → Cloud → Cloud × Outcome
unfolding set_state update_status target
carry_out f a i w =
    if f.provider
    then (w, refused internal)
    else let v = record w { provider = set_state i.provider_id (desired a) w.now w.provider } in
      if f.update then (v, refused internal) else (
        record v {
          instances = update_status i.id (target a) w.instances;
          notices = asked a i.id ∷ w.notices;
        },
        done,
      )

abbrev pub guarded : Faults → Action → ComputeInstance → Cloud → Cloud × Outcome
guarded f a i w =
    if not (can_transition i.status (target a))
    then (w, refused invalid_transition)
    else carry_out f a i w

-- `Start`, `Stop` and `Terminate` on the instance that was found.
unfoldable pub act_on : Faults → Action → ComputeInstance → Cloud → Cloud × Outcome
unfolding can_transition target carry_out
act_on f start i w = guarded f start i w
act_on f stop i w = guarded f stop i w
act_on f terminate i w = elim i.status [ terminated ↦ (w, done) | _ ↦ guarded f terminate i w ]

unfoldable pub act : Faults → Lookup (Unit {0}) → Action → ℕ → ℕ → Cloud → Cloud × Outcome
unfolding get act_on
act f m a org id w = for_member m w (elim (get f org id w) [
  | missing ↦ (w, refused not_found)
  | broken ↦ (w, refused internal)
  | found i ↦ act_on f a i w
])
