-- ===== src/Server/Compute/Overshoot.antt =====
-- How far requests that overlap exceed a quota: `Create` of internal/compute/service.go.
use iaas_platform.Base.{
  ℕ, suc, ◌+◌, ◌≤◌, ◌<◌, ◌≡◌, refl, ap, sym, ◌∙◌, inl, inr, true, Option, none, List, [], ◌∷◌, ◌++◌,
  ◌==◌, arith, if◌then◌else◌, Bool-cases, Option-cases,
}
use iaas_platform.Api.{Action}
use iaas_platform.Server.{Lookup}
use iaas_platform.Server.Compute.{
  Cloud, sum_active, sum_active_by_org, in_org, get_quota, get_region, exceeds, int64_limit,
}
use iaas_platform.Server.Compute.Service.{Faults, Spec, enforce_quota, new_row, provision, act}
use iaas_platform.Server.Compute.Reconciler.{TickFaults, tick}
use iaas_platform.Server.Compute.Requests.{
  SameLimits, provision-rows, provision-SameLimits, act-rows, act-SameLimits,
}
use iaas_platform.Server.Compute.Limits.{
  int_safe, sum_active-append, sum_active-update_status, settle_rows-UsesLess,
}
use iaas_platform.Server.Compute.Kept.{tick-SameLimits}
use iaas_platform.Server.Compute.Overlapping.{
  admitted, Ticket, Busy, count_of, Overlaps, here, begins, ends, acts, ticks, passes,
}

abbrev active : ℕ → Cloud → ℕ
active org w = (sum_active (in_org org) w.instances).count

count_of-middle :
    (org : ℕ) (front back : List Ticket) (t : Ticket)
    → count_of org (front ++ (t ∷ back)) ≡ count_of org (t ∷ front ++ back)
unfolding count_of
count_of-middle org [] back t = refl
count_of-middle org (x ∷ front) back t = ground (arith, count_of-middle org front back t)

admitted-enforce_quota :
    (f : Faults) (org : ℕ) (s : Spec) (w : Cloud)
    → admitted f org s w ≡ true
    → enforce_quota f org s w ≡ none
unfolding admitted
admitted-enforce_quota f org s w h = elim (Bool-cases f.region) [
  | inl e ↦ ground (arith, e, h)
  | inr e ↦ elim (Option-cases (get_region s.region w.regions)) [
    | inl g ↦ ground (arith, e, g, h)
    | inr (c, g) ↦ elim (Option-cases (enforce_quota f org s w)) [
      | inr (x, q) ↦ ground (arith, e, g, q, h)
      | inl q ↦ q
    ]
  ]
]

enforce_quota-room :
    (f : Faults) (org : ℕ) (s : Spec) (w : Cloud)
    → enforce_quota f org s w ≡ none
    → active org w + 1 < int64_limit
    → active org w + 1 ≤ (get_quota org w.quotas).max_instances
unfolding enforce_quota exceeds sum_active_by_org
enforce_quota-room f org s w h b = ground (arith, h, b)

-- Room for those in flight, but for all but one of them.
abbrev Room : ℕ → ℕ → ℕ → Busy → Type 0
Room org limit most b = active org b.cloud + count_of org b.in_flight < limit + most

provision-active :
    (f : Faults) (org org' user : ℕ) (s : Spec) (pid : Option ℕ) (w : Cloud)
    → active org (provision f org' user s pid w).0
      ≤ (if org' == org then suc (active org w) else active org w)
unfolding new_row
provision-active f org org' user s pid w = elim (provision-rows f org' user s pid w) [
  | inl e ↦ rw (e, active) (ground arith)
  | inr (p, a, g) ↦
      let app = sum_active-append (in_org org) w.instances (new_row w.next_id org' user s p) refl in
      elim (Bool-cases (org' == org)) [
        | inl y ↦ rw (a, active, app.0 y, y) (omega arith)
        | inr n ↦ rw (a, active, app.1 n, n) (omega arith)
      ]
]

act-active :
    (f : Faults) (m : Lookup (Unit {0})) (a : Action) (o id org : ℕ) (w : Cloud)
    → active org (act f m a o id w).0 ≤ active org w
act-active f m a o id org w = elim (act-rows f m a o id w) [
  | inl e ↦ rw (e, active) (omega arith)
  | inr g ↦
      let less =
        sum_active-update_status (in_org org) g.id g.status w.instances g.row (λ i s. refl) g.finds
          g.was_active in
      rw (g.rows, active) less.count
]

tick-active : (f : TickFaults) (org : ℕ) (w : Cloud) → active org (tick f w).0 ≤ active org w
unfolding tick
tick-active f org w = elim (Bool-cases f.list) [
  | inl e ↦ rw (e, tick) (omega arith)
  | inr e ↦
      let less = settle_rows-UsesLess (in_org org) f w w.instances (λ i s. refl) in
      rw (e, tick) less.count
]

SameLimits-trans : {u v w : Cloud} → SameLimits u v → SameLimits v w → SameLimits u w
SameLimits-trans a b = record { quotas = b.quotas ∙ a.quotas; regions = b.regions ∙ a.regions }

Overlaps-SameLimits : {most : ℕ} {b v : Busy} → Overlaps most b v → SameLimits b.cloud v.cloud
Overlaps-SameLimits here = record { quotas = refl; regions = refl }
Overlaps-SameLimits (begins o f org user s h l) = Overlaps-SameLimits o
Overlaps-SameLimits (ends {v} o f pid front back t e) =
    SameLimits-trans (Overlaps-SameLimits o)
      (provision-SameLimits f t.org t.user t.spec pid v.cloud)
Overlaps-SameLimits (acts {v} o f m a org id) =
    SameLimits-trans (Overlaps-SameLimits o) (act-SameLimits f m a org id v.cloud)
Overlaps-SameLimits (ticks {v} o f) =
    SameLimits-trans (Overlaps-SameLimits o) (tick-SameLimits f v.cloud)
Overlaps-SameLimits (passes o ms) =
    let l = Overlaps-SameLimits o in record { quotas = l.quotas; regions = l.regions }

Overlaps-Room :
    (org limit : ℕ) {most : ℕ} {b v : Busy}
    → limit ≡ (get_quota org b.cloud.quotas).max_instances
    → limit ≤ int_safe
    → most < int_safe
    → Room org limit most b
    → Overlaps most b v
    → Room org limit most v
unfolding count_of
Overlaps-Room org limit q i j h here = h
Overlaps-Room org limit {most} q i j h (begins {v} o f org' user s a l) =
    let r = Overlaps-Room org limit q i j h o in
    elim (Bool-cases (org' == org)) [
      | inr n ↦ rw n r
      | inl y ↦
          let k : org' ≡ org = ground (arith, y) in
          let e : admitted f org s v.cloud ≡ true = simp k at a in
          let m : count_of org v.in_flight < most = simp k at l in
          let room =
            enforce_quota-room f org s v.cloud (admitted-enforce_quota f org s v.cloud e)
              (omega (arith, i, j, r)) in
          let same : (get_quota org v.cloud.quotas).max_instances ≡ limit =
            ap (λ z. (get_quota org z).max_instances) ((Overlaps-SameLimits o).quotas) ∙ sym q in
          rw y (omega (arith, room, same, m))
    ]
Overlaps-Room org limit {most} q i j h (ends {v} o f pid front back t e) =
    let r = Overlaps-Room org limit q i j h o in
    let c : count_of org v.in_flight ≡ count_of org (t ∷ front ++ back) =
      ap (count_of org) e ∙ count_of-middle org front back t in
    let p = provision-active f org t.org t.user t.spec pid v.cloud in
    elim (Bool-cases (t.org == org)) [
      | inl y ↦ omega (arith, r, simp y at c, simp y at p)
      | inr n ↦ omega (arith, r, simp n at c, simp n at p)
    ]
Overlaps-Room org limit q i j h (acts {v} o f m a org' id) =
    omega (arith, Overlaps-Room org limit q i j h o, act-active f m a org' id org v.cloud)
Overlaps-Room org limit q i j h (ticks {v} o f) =
    omega (arith, Overlaps-Room org limit q i j h o, tick-active f org v.cloud)
Overlaps-Room org limit q i j h (passes o ms) = Overlaps-Room org limit q i j h o

-- Where at most `most` requests that create instances in an organization are past their checks at
-- once, whichever calls fail, in whichever order the requests end, and with any requests on
-- instances, ticks and delays in between: an organization that starts within its limit of instances,
-- with no such request under way, has at most `most` - 1 active instances more than the limit; where
-- the limit is at most 2 ^ 62 and `most` lies between 1 and 2 ^ 62. So the quota is exact where the
-- requests do not overlap.
pub overshoot_bounded :
    (org : ℕ) {most : ℕ} {b v : Busy}
    → (get_quota org b.cloud.quotas).max_instances ≤ int_safe
    → 1 ≤ most
    → most < int_safe
    → b.in_flight ≡ []
    → (sum_active_by_org org b.cloud.instances).count ≤ (get_quota org b.cloud.quotas).max_instances
    → Overlaps most b v
    → (sum_active_by_org org v.cloud.instances).count
      < (get_quota org v.cloud.quotas).max_instances + most
unfolding sum_active_by_org count_of
overshoot_bounded org {most} {b} {v} i k j e h o =
    let limit = (get_quota org b.cloud.quotas).max_instances in
    let none_yet : count_of org b.in_flight ≡ 0 = rw e refl in
    let r = Overlaps-Room org limit refl i j (omega (arith, h, none_yet, k)) o in
    let same : (get_quota org v.cloud.quotas).max_instances ≡ limit =
      ap (λ z. (get_quota org z).max_instances) ((Overlaps-SameLimits o).quotas) in
    omega (arith, r, same)
