-- ===== src/Server/Compute/Overlapping.antt =====
-- Requests that create instances and overlap: `Create` of internal/compute/service.go reads the sums
-- and inserts the row later, with no transaction around both. Each request is taken in two steps, its
-- checks, which are one step, and what follows them; requests on instances, ticks and delays come in
-- between.
use iaas_platform.Base.{
  ℕ, suc, ◌+◌, ◌<◌, ◌≡◌, refl, inl, inr, Bool, true, false, Option, none, some, List, [], ◌∷◌, ◌++◌,
  ◌==◌, arith, if◌then◌else◌, Bool-cases, Option-cases,
}
use iaas_platform.Api.{Action}
use iaas_platform.Server.{Lookup, found}
use iaas_platform.Server.Compute.{Cloud, get_region}
use iaas_platform.Server.Compute.Service.{
  Faults, CreateInstanceRequest, Spec, spec_of, enforce_quota, enforce_capacity, provision,
  create_in, create, act,
}
use iaas_platform.Server.Compute.Reconciler.{TickFaults, tick}

-- The checks of a member's request.
unfoldable pub admitted : Faults → ℕ → Spec → Cloud → Bool
unfolding get_region enforce_quota enforce_capacity
admitted f org s w = if f.region then false else elim (get_region s.region w.regions) [
  | none ↦ false
  | some c ↦ elim (enforce_quota f org s w) [
    | some e ↦ false
    | none ↦ elim (enforce_capacity f c s w) [ some e ↦ false | none ↦ true ]
  ]
]

-- A request after its checks.
pub record Ticket : Type 0 where
  pub org : ℕ
  pub user : ℕ
  pub spec : Spec

pub record Busy : Type 0 where
  pub cloud : Cloud
  pub in_flight : List Ticket

unfoldable pub count_of : ℕ → List Ticket → ℕ
count_of org [] = 0
count_of org (t ∷ l) = let rest = count_of org l in if t.org == org then suc rest else rest

pub data Overlaps (most : ℕ) (b : Busy) : Busy → Type 0 where
  here : Overlaps most b b
  begins :
      {v : Busy}
      → Overlaps most b v
      → (f : Faults) (org user : ℕ) (s : Spec) → admitted f org s v.cloud ≡ true
      → count_of org v.in_flight < most
      → Overlaps most b
          (record v { in_flight = record { org = org; user = user; spec = s } ∷ v.in_flight })
  ends :
      {v : Busy}
      → Overlaps most b v
      → (f : Faults) (pid : Option ℕ) (front back : List Ticket) (t : Ticket)
      → v.in_flight ≡ front ++ (t ∷ back)
      → Overlaps most b (record {
        cloud = (provision f t.org t.user t.spec pid v.cloud).0;
        in_flight = front ++ back;
      })
  acts :
      {v : Busy}
      → Overlaps most b v
      → (f : Faults) (m : Lookup (Unit {0})) (a : Action) (org id : ℕ)
      → Overlaps most b (record v { cloud = (act f m a org id v.cloud).0 })
  ticks :
      {v : Busy}
      → Overlaps most b v
      → (f : TickFaults) → Overlaps most b (record v { cloud = (tick f v.cloud).0 })
  passes :
      {v : Busy}
      → Overlaps most b v
      → (ms : ℕ) → Overlaps most b (record v { cloud = record v.cloud { now = v.cloud.now + ms } })

-- A request that is not interrupted is its checks and what follows them.
pub create-admitted :
    (f : Faults) (org user : ℕ) (r : CreateInstanceRequest) (pid : Option ℕ) (w : Cloud)
    → admitted f org (spec_of r) w ≡ true
    → create f (found tt) org user r pid w ≡ provision f org user (spec_of r) pid w
unfolding admitted create create_in
create-admitted f org user r pid w h = elim (Bool-cases f.region) [
  | inl e ↦ ground (arith, e, h)
  | inr e ↦ elim (Option-cases (get_region (spec_of r).region w.regions)) [
    | inl g ↦ ground (arith, e, g, h)
    | inr (c, g) ↦ elim (Option-cases (enforce_quota f org (spec_of r) w)) [
      | inr (x, q) ↦ ground (arith, e, g, q, h)
      | inl q ↦ elim (Option-cases (enforce_capacity f c (spec_of r) w)) [
        | inr (x, k) ↦ ground (arith, e, g, q, k, h)
        | inl k ↦ simp (e, g, q, k, create, create_in) refl
      ]
    ]
  ]
]
