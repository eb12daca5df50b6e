-- ===== src/Server/Compute/Kept.antt =====
-- Bounds on a sum of the active instances along sequences of requests, ticks and delays, for what
-- `Create` adds under a bound.
use iaas_platform.Base.{ℕ, ◌≡◌, refl, ◌∙◌, inl, inr, some, Bool-cases, arith}
use iaas_platform.Server.Compute.{Cloud, OrgUsage, RegionCapacity, sum_active, get_region}
use iaas_platform.Server.Compute.Service.{Faults, Spec, create, spec_of}
use iaas_platform.Server.Compute.Reconciler.{TickFaults, tick}
use iaas_platform.Server.Compute.System.{
  Move, creates, acts, ticks, passes, move, Reach, here, next,
}
use iaas_platform.Server.Compute.Requests.{
  SameLimits, Added, create-rows, create-SameLimits, act-rows, act-SameLimits,
}
use iaas_platform.Server.Compute.Limits.{
  UsesLess, Test, IgnoresStatus, sum_active-update_status, settle_rows-UsesLess,
}

pub tick-SameLimits : (f : TickFaults) (w : Cloud) → SameLimits w (tick f w).0
unfolding tick
tick-SameLimits f w = record { quotas = ground arith; regions = ground arith }

move-SameLimits : (m : Move) (w : Cloud) → SameLimits w (move m w)
unfolding move
move-SameLimits (creates f m org user r pid) w = create-SameLimits f m org user r pid w
move-SameLimits (acts f m a org id) w = act-SameLimits f m a org id w
move-SameLimits (ticks f) w = tick-SameLimits f w
move-SameLimits (passes ms) w = record { quotas = refl; regions = refl }

pub Reach-SameLimits : {w v : Cloud} → Reach w v → SameLimits w v
Reach-SameLimits here = record { quotas = refl; regions = refl }
Reach-SameLimits (next {v} r m) =
    let a = Reach-SameLimits r in
    let b = move-SameLimits m v in
    record { quotas = b.quotas ∙ a.quotas; regions = b.regions ∙ a.regions }

module _ (start : Cloud) (p : Test) (ignores : IgnoresStatus p) (Bound : OrgUsage → Type 0)
    (less : (u v : OrgUsage) → UsesLess u v → Bound v → Bound u)
    (adding : (f : Faults) (org user : ℕ) (s : Spec) (c : RegionCapacity) (w v : Cloud)
      → SameLimits start w
      → get_region s.region w.regions ≡ some c
      → Added f org user s c w v
      → Bound (sum_active p w.instances)
      → Bound (sum_active p v.instances)) where
  abbrev Bounded : Cloud → Type 0
  Bounded w = Bound (sum_active p w.instances)

  tick-Bounded : (f : TickFaults) (w : Cloud) → Bounded w → Bounded (tick f w).0
  unfolding tick
  tick-Bounded f w h = elim (Bool-cases f.list) [
    | inl e ↦ rw (e, tick) h
    | inr e ↦
        simp (e, tick)
          (less _ (sum_active p w.instances) (settle_rows-UsesLess p f w w.instances ignores) h)
  ]

  move-Bounded : (m : Move) (w : Cloud) → SameLimits start w → Bounded w → Bounded (move m w)
  unfolding move
  move-Bounded (creates f m org user r pid) w k h = elim (create-rows f m org user r pid w) [
    | inl e ↦ rw e h
    | inr (c, g, a) ↦ adding f org user (spec_of r) c w (create f m org user r pid w).0 k g a h
  ]
  move-Bounded (acts f m a org id) w k h = elim (act-rows f m a org id w) [
    | inl e ↦ rw e h
    | inr g ↦ rw g.rows (
        less _ (sum_active p w.instances)
          (sum_active-update_status p g.id g.status w.instances g.row ignores g.finds g.was_active)
          h)
  ]
  move-Bounded (ticks f) w k h = tick-Bounded f w h
  move-Bounded (passes ms) w k h = h

  pub Reach-Bounded : {w : Cloud} → Reach start w → Bounded start → Bounded w
  Reach-Bounded here h = h
  Reach-Bounded (next {v} r m) h = move-Bounded m v (Reach-SameLimits r) (Reach-Bounded r h)
