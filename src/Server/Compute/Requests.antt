-- ===== src/Server/Compute/Requests.antt =====
-- The requests of internal/compute/service.go, layer by layer: the row that is added or restated.
use iaas_platform.Base.{
  ℕ, ◌≡◌, refl, ap, ◌⊎◌, inl, inr, true, Option, none, some, List, [], ◌∷◌, ◌++◌, ◌&&◌, arith,
  Option-cases, Bool-cases,
}
use iaas_platform.Api.{
  Status, pending, running, stopping, stopped, terminating, terminated, failed, unknown, Action,
  start, stop, terminate,
}
use iaas_platform.Lifecycle.{can_transition, target}
use iaas_platform.Server.{Lookup, found, missing, broken}
use iaas_platform.Server.Compute.{
  Cloud, ComputeInstance, RegionCapacity, is_active, find_by_id, update_status, get_region,
  fits_int,
}
use iaas_platform.Server.Compute.Provider.{set_state}
use iaas_platform.Server.Compute.Service.{
  Faults, CreateInstanceRequest, Spec, enforce_quota, enforce_capacity, new_row, create, act,
  act_on, guarded, carry_out, insert_row, provision, create_in, spec_of, get, Outcome, done,
}

-- What no request changes.
pub record SameLimits (w v : Cloud) : Type 0 where
  pub quotas : v.quotas ≡ w.quotas
  pub regions : v.regions ≡ w.regions

-- A row was added, and passed the checks.
pub record Added (f : Faults) (org user : ℕ) (s : Spec) (c : RegionCapacity) (w v : Cloud)
    : Type 0 where
  pub pid : ℕ
  pub rows : v.instances ≡ w.instances ++ (new_row w.next_id org user s pid ∷ [])
  pub quota : enforce_quota f org s w ≡ none
  pub capacity : enforce_capacity f c s w ≡ none
  pub fits : (fits_int s.cpu && (fits_int s.mem && fits_int s.disk)) ≡ true

insert_row-rows :
    (f : Faults) (org user : ℕ) (s : Spec) (pid : ℕ) (w : Cloud)
    → (insert_row f org user s pid w).0.instances ≡ w.instances
      ⊎ ((insert_row f org user s pid w).0.instances
            ≡ w.instances ++ (new_row w.next_id org user s pid ∷ [])
          × ((fits_int s.cpu && (fits_int s.mem && fits_int s.disk)) ≡ true))
unfolding insert_row
insert_row-rows f org user s pid w = ground arith

insert_row-SameLimits :
    (f : Faults) (org user : ℕ) (s : Spec) (pid : ℕ) (w : Cloud)
    → SameLimits w (insert_row f org user s pid w).0
unfolding insert_row
insert_row-SameLimits f org user s pid w = record { quotas = ground arith; regions = ground arith }

pub provision-SameLimits :
    (f : Faults) (org user : ℕ) (s : Spec) (pid : Option ℕ) (w : Cloud)
    → SameLimits w (provision f org user s pid w).0
unfolding provision insert_row
provision-SameLimits f org user s none w = record { quotas = refl; regions = refl }
provision-SameLimits f org user s (some p) w = record {
  quotas = ground arith;
  regions = ground arith;
}

abbrev pub Adds : ComputeInstance → Cloud → Cloud → Type 0
Adds i w v = v.instances ≡ w.instances ++ (i ∷ [])

abbrev pub Fits : Spec → Type 0
Fits s = (fits_int s.cpu && (fits_int s.mem && fits_int s.disk)) ≡ true

pub provision-rows :
    (f : Faults) (org user : ℕ) (s : Spec) (pid : Option ℕ) (w : Cloud)
    → (provision f org user s pid w).0.instances ≡ w.instances
      ⊎ ((p : ℕ) × Adds (new_row w.next_id org user s p) w (provision f org user s pid w).0
          × Fits s)
unfolding provision insert_row
provision-rows f org user s none w = inl refl
provision-rows f org user s (some p) w = elim (Bool-cases f.provision) [
  | inl e ↦ inl (ground (arith, e))
  | inr e ↦
      elim (insert_row-rows f org user s p
        (record w { provider = set_state p pending w.now w.provider })) [
          | inl h ↦ inl (ground (arith, e, h))
          | inr (h, g) ↦ inr (p, ground (arith, e, h), g)
        ]
]

create_in-rows :
    (f : Faults) (c : RegionCapacity) (org user : ℕ) (s : Spec) (pid : Option ℕ) (w : Cloud)
    → (create_in f c org user s pid w).0.instances ≡ w.instances
      ⊎ Added f org user s c w (create_in f c org user s pid w).0
unfolding create_in
create_in-rows f c org user s pid w = elim (Option-cases (enforce_quota f org s w)) [
  | inr (e, q) ↦ inl (rw (q, create_in) refl)
  | inl q ↦ elim (Option-cases (enforce_capacity f c s w)) [
    | inr (e, k) ↦ inl (rw (q, k, create_in) refl)
    | inl k ↦ elim (provision-rows f org user s pid w) [
      | inl h ↦ inl (rw (q, k, create_in) h)
      | inr (p, h, g) ↦
          inr (record { pid = p; rows = rw (q, k, create_in) h; quota = q; capacity = k; fits = g })
    ]
  ]
]

pub create-rows :
    (f : Faults) (m : Lookup (Unit {0})) (org user : ℕ) (r : CreateInstanceRequest) (pid : Option ℕ)
    (w : Cloud)
    → (create f m org user r pid w).0.instances ≡ w.instances
      ⊎ ((c : RegionCapacity) × (get_region (spec_of r).region w.regions ≡ some c)
          × Added f org user (spec_of r) c w (create f m org user r pid w).0)
unfolding create
create-rows f missing org user r pid w = inl refl
create-rows f broken org user r pid w = inl refl
create-rows f (found x) org user r pid w = elim (Bool-cases f.region) [
  | inl e ↦ inl (rw (e, create) refl)
  | inr e ↦ elim (Option-cases (get_region (spec_of r).region w.regions)) [
    | inl g ↦ inl (rw (e, g, create) refl)
    | inr (c, g) ↦ elim (create_in-rows f c org user (spec_of r) pid w) [
      | inl h ↦ inl (rw (e, g, create) h)
      | inr h ↦ inr (c, g, simp (e, g, create) h)
    ]
  ]
]

pub create-SameLimits :
    (f : Faults) (m : Lookup (Unit {0})) (org user : ℕ) (r : CreateInstanceRequest) (pid : Option ℕ)
    (w : Cloud)
    → SameLimits w (create f m org user r pid w).0
unfolding create create_in
create-SameLimits f missing org user r pid w = record { quotas = refl; regions = refl }
create-SameLimits f broken org user r pid w = record { quotas = refl; regions = refl }
create-SameLimits f (found x) org user r pid w =
    let s = provision-SameLimits f org user (spec_of r) pid w in
    record { quotas = ground (arith, s.quotas); regions = ground (arith, s.regions) }

-- The status of a row changed, or none.
pub record Restated (w v : Cloud) : Type 0 where
  pub id : ℕ
  pub status : Status
  pub row : ComputeInstance
  pub finds : find_by_id id w.instances ≡ some row
  pub was_active : is_active row.status ≡ true
  pub rows : v.instances ≡ update_status id status w.instances

pub can_transition-is_active : (s t : Status) → can_transition s t ≡ true → is_active s ≡ true
unfolding can_transition
can_transition-is_active terminated t h = ground arith
can_transition-is_active pending t h = refl
can_transition-is_active running t h = refl
can_transition-is_active stopping t h = refl
can_transition-is_active stopped t h = refl
can_transition-is_active terminating t h = refl
can_transition-is_active failed t h = refl
can_transition-is_active (unknown x) t h = refl

pub find_by_id-id :
    (id : ℕ) (l : List ComputeInstance) (i : ComputeInstance) → find_by_id id l ≡ some i → i.id ≡ id
unfolding find_by_id
find_by_id-id id [] i e = ground arith
find_by_id-id id (x ∷ l) i e = ground (arith, find_by_id-id id l i)

pub guarded-rows :
    (f : Faults) (a : Action) (i : ComputeInstance) (w : Cloud)
    → find_by_id i.id w.instances ≡ some i
    → (guarded f a i w).0.instances ≡ w.instances ⊎ Restated w (guarded f a i w).0
unfolding carry_out
guarded-rows f a i w h = elim (Bool-cases (can_transition i.status (target a))) [
  | inr e ↦ inl (rw e refl)
  | inl e ↦ elim (Bool-cases f.provider) [
    | inl p ↦ inl (ground (arith, e, p))
    | inr p ↦ elim (Bool-cases f.update) [
      | inl u ↦ inl (ground (arith, e, p, u))
      | inr u ↦ inr (record {
        id = i.id;
        status = target a;
        row = i;
        finds = h;
        was_active = can_transition-is_active i.status (target a) e;
        rows = ground (arith, e, p, u);
      })
    ]
  ]
]

act_on-cases :
    (f : Faults) (a : Action) (i : ComputeInstance) (w : Cloud)
    → (act_on f a i w ≡ guarded f a i w) ⊎ (act_on f a i w ≡ (w, done))
unfolding act_on
act_on-cases f start i w = inl refl
act_on-cases f stop i w = inl refl
act_on-cases f terminate i w = ground arith

get-found :
    (f : Faults) (org id : ℕ) (w : Cloud) (i : ComputeInstance)
    → get f org id w ≡ found i
    → (find_by_id id w.instances ≡ some i) × (i.organization_id ≡ org)
unfolding get
get-found f org id w i e = (ground (arith, e), ground (arith, e))

get-found_own :
    (f : Faults) (org id : ℕ) (w : Cloud) (i : ComputeInstance)
    → get f org id w ≡ found i
    → find_by_id i.id w.instances ≡ some i
get-found_own f org id w i e =
    let h = (get-found f org id w i e).0 in simp (find_by_id-id id w.instances i h) h

-- A request that changes nothing or is carried out under the guard on the row that was found.
abbrev pub ActCase : Faults → Action → ℕ → Cloud → Cloud × Outcome → Type 0
ActCase f a id w v =
    (v.0 ≡ w)
    ⊎ ((i : ComputeInstance) × (find_by_id i.id w.instances ≡ some i) × (v.0 ≡ (guarded f a i w).0))

pub act-cases :
    (f : Faults) (m : Lookup (Unit {0})) (a : Action) (org id : ℕ) (w : Cloud)
    → ActCase f a id w (act f m a org id w)
unfolding act
act-cases f missing a org id w = inl refl
act-cases f broken a org id w = inl refl
act-cases f (found x) a org id w = served (get f org id w) refl
  where
    served :
        (g : Lookup ComputeInstance)
        → get f org id w ≡ g
        → ActCase f a id w (act f (found x) a org id w)
    served missing e = inl (rw (e, act) refl)
    served broken e = inl (rw (e, act) refl)
    served (found i) e = elim (act_on-cases f a i w) [
      | inl h ↦ inr (i, get-found_own f org id w i e, rw (e, act, h) refl)
      | inr h ↦ inl (rw (e, act, h) refl)
    ]

carry_out-SameLimits :
    (f : Faults) (a : Action) (i : ComputeInstance) (w : Cloud) → SameLimits w (carry_out f a i w).0
unfolding carry_out
carry_out-SameLimits f a i w = record { quotas = ground arith; regions = ground arith }

pub act-SameLimits :
    (f : Faults) (m : Lookup (Unit {0})) (a : Action) (org id : ℕ) (w : Cloud)
    → SameLimits w (act f m a org id w).0
act-SameLimits f m a org id w = elim (act-cases f m a org id w) [
  | inl e ↦ rw e (record { quotas = refl; regions = refl })
  | inr (i, l, e) ↦
      let k = carry_out-SameLimits f a i w in
      record { quotas = ground (arith, e, k.quotas); regions = ground (arith, e, k.regions) }
]

pub act-rows :
    (f : Faults) (m : Lookup (Unit {0})) (a : Action) (org id : ℕ) (w : Cloud)
    → (act f m a org id w).0.instances ≡ w.instances ⊎ Restated w (act f m a org id w).0
act-rows f m a org id w = elim (act-cases f m a org id w) [
  | inl e ↦ inl (ap (λ v. v.instances) e)
  | inr (i, l, e) ↦ rw e (guarded-rows f a i w l)
]
