-- ===== src/Server/Compute/Runs.antt =====
-- The agreement of the rows with the provider along sequences of requests, ticks and delays:
-- internal/compute/service.go and reconciler.go.
use iaas_platform.Base.{
  ℕ, ◌≡◌, refl, ◌∙◌, ◌⊎◌, inl, inr, true, false, Option, none, some, [], ◌∷◌, arith, Bool-cases,
  Option-cases,
}
use iaas_platform.Api.{Action}
use iaas_platform.Lifecycle.{can_transition, target}
use iaas_platform.Server.{Lookup, found, missing, broken}
use iaas_platform.Server.Compute.{
  Cloud, ComputeInstance, RegionCapacity, find_by_id, update_status, get_region,
}
use iaas_platform.Server.Compute.Service.{
  Faults, CreateInstanceRequest, Spec, create, create_in, provision, spec_of, enforce_quota,
  enforce_capacity, act, carry_out, desired, asked,
}
use iaas_platform.Server.Compute.Reconciler.{TickFaults, tick}
use iaas_platform.Server.Compute.System.{Move, creates, acts, ticks, passes, move}
use iaas_platform.Server.Compute.Requests.{act-cases}
use iaas_platform.Server.Compute.Coherent.{
  coherent, has_pid, own_pids, Coherent, settle_rows-coherent, settle_rows-own_pids,
}
use iaas_platform.Server.Compute.Calls.{calling, asked-rows, update_status-own_pids}
use iaas_platform.Server.Compute.Growing.{rows-later, insert_row-Coherent}

-- A move whose request does not lose the update of a status after the provider was called, and whose
-- new identifier, if it makes one, is that of no row.
abbrev pub Reliable : Move → Cloud → Type 0
Reliable (creates f m org user r none) w = Unit
Reliable (creates f m org user r (some p)) w = has_pid p w.instances ≡ false
Reliable (acts f m a org id) w = f.update ≡ false
Reliable (ticks f) w = Unit
Reliable (passes ms) w = Unit

pub data Runs (w : Cloud) : Cloud → Type 0 where
  begin : Runs w w
  step : {v : Cloud} → Runs w v → (m : Move) → Reliable m v → Runs w (move m v)

module _ (f : Faults) (org user : ℕ) (s : Spec) (w : Cloud) (c : Coherent w) where
  abbrev Fresh : Option ℕ → Type 0
  Fresh none = Unit
  Fresh (some p) = has_pid p w.instances ≡ false

  provision-Coherent : (pid : Option ℕ) → Fresh pid → Coherent (provision f org user s pid w).0
  unfolding provision
  provision-Coherent none n = c
  provision-Coherent (some p) n = elim (Bool-cases f.provision) [
    | inl e ↦ simp (e, provision) c
    | inr e ↦ simp (e, provision) (insert_row-Coherent f org user s p w n c)
  ]

  create_in-Coherent :
      (k : RegionCapacity) (pid : Option ℕ)
      → Fresh pid
      → Coherent (create_in f k org user s pid w).0
  unfolding create_in
  create_in-Coherent k pid n = elim (Option-cases (enforce_quota f org s w)) [
    | inr (e, q) ↦ simp (q, create_in) c
    | inl q ↦ elim (Option-cases (enforce_capacity f k s w)) [
      | inr (e, h) ↦ simp (q, h, create_in) c
      | inl h ↦ simp (q, h, create_in) (provision-Coherent pid n)
    ]
  ]

create-Coherent :
    (f : Faults) (m : Lookup (Unit {0})) (org user : ℕ) (r : CreateInstanceRequest) (pid : Option ℕ)
    (w : Cloud)
    → Reliable (creates f m org user r pid) w
    → Coherent w
    → Coherent (create f m org user r pid w).0
unfolding create
create-Coherent f missing org user r pid w n c = c
create-Coherent f broken org user r pid w n c = c
create-Coherent f (found x) org user r pid w n c = elim (Bool-cases f.region) [
  | inl e ↦ simp (e, create) c
  | inr e ↦ elim (Option-cases (get_region (spec_of r).region w.regions)) [
    | inl g ↦ simp (e, g, create) c
    | inr (k, g) ↦
        simp (e, g, create) (create_in-Coherent f org user (spec_of r) w c k pid (fresh pid n))
  ]
]
  where
    fresh :
        (p : Option ℕ)
        → Reliable (creates f (found x) org user r p) w
        → Fresh f org user (spec_of r) w c p
    fresh none h = h
    fresh (some p) h = h

-- An accepted action whose calls succeed.
abbrev pub taken : Action → ComputeInstance → Cloud → Cloud
taken a i w = record (calling i.provider_id (desired a) w) {
  instances = update_status i.id (target a) w.instances;
  notices = asked a i.id ∷ w.notices;
}

taken-Coherent :
    (a : Action) (i : ComputeInstance) (w : Cloud)
    → find_by_id i.id w.instances ≡ some i
    → Coherent w
    → Coherent (taken a i w)
unfolding coherent
taken-Coherent a i w e c = record {
  rows = asked-rows a w i w.instances e c.pids c.rows;
  pids = update_status-own_pids i.id (target a) w.instances ∙ c.pids;
}

-- A request that changes nothing, or one that the table allows on the row that was found.
pub act-taken :
    (f : Faults) (m : Lookup (Unit {0})) (a : Action) (org id : ℕ) (w : Cloud)
    → f.update ≡ false
    → ((act f m a org id w).0 ≡ w)
      ⊎ ((i : ComputeInstance) × (find_by_id i.id w.instances ≡ some i)
          × (can_transition i.status (target a) ≡ true)
          × ((act f m a org id w).0 ≡ taken a i w))
unfolding carry_out
act-taken f m a org id w u = elim (act-cases f m a org id w) [
  | inl e ↦ inl e
  | inr (i, l, e) ↦ elim (Bool-cases (can_transition i.status (target a))) [
    | inr t ↦ inl (ground (arith, e, t))
    | inl t ↦ elim (Bool-cases f.provider) [
      | inl p ↦ inl (ground (arith, e, t, p))
      | inr p ↦ inr (i, l, t, ground (arith, e, t, p, u))
    ]
  ]
]

tick-Coherent : (f : TickFaults) (w : Cloud) → Coherent w → Coherent (tick f w).0
unfolding tick coherent
tick-Coherent f w c = elim (Bool-cases f.list) [
  | inl e ↦ simp (e, tick) c
  | inr e ↦
      simp (e, tick)
        (record {
          rows = settle_rows-coherent f w w.instances c.rows;
          pids = settle_rows-own_pids f w w.instances ∙ c.pids;
        })
]

move-Coherent : (m : Move) (w : Cloud) → Reliable m w → Coherent w → Coherent (move m w)
unfolding move
move-Coherent (creates f m org user r pid) w n c = create-Coherent f m org user r pid w n c
move-Coherent (acts f m a org id) w n c = elim (act-taken f m a org id w n) [
  | inl e ↦ rw e c
  | inr (i, l, t, e) ↦ rw e (taken-Coherent a i w l c)
]
move-Coherent (ticks f) w n c = tick-Coherent f w c
move-Coherent (passes ms) w n c = record {
  rows = rows-later ms w w.instances c.rows;
  pids = c.pids;
}

empty-Coherent : (w : Cloud) → w.instances ≡ [] → Coherent w
unfolding own_pids
empty-Coherent w e = record { rows = rw e tt; pids = rw e refl }

pub Runs-Coherent : {w v : Cloud} → w.instances ≡ [] → Runs w v → Coherent v
Runs-Coherent {w} e begin = empty-Coherent w e
Runs-Coherent e (step {v} r m n) = move-Coherent m v n (Runs-Coherent e r)
