-- ===== src/Server/Compute/Settling.antt =====
-- How rows settle: what the reconciler of internal/compute/reconciler.go makes of the states that
-- the provider reports, after the requests of service.go.
use iaas_platform.Base.{
  ℕ, suc, ◌≡◌, refl, ap, ◌∙◌, inl, inr, true, false, none, some, List, [], ◌∷◌, arith, Option-cases,
}
use iaas_platform.Base.Text.Laws.{text_eq_iff}
use iaas_platform.Api.{
  Status, pending, running, stopping, stopped, terminated, failed, terminating, unknown,
}
use iaas_platform.Server.{Lookup, found, missing, broken}
use iaas_platform.Server.Compute.{Cloud, ComputeInstance, same_status, Notice}
use iaas_platform.Server.Compute.Provider.{get_state}
use iaas_platform.Server.Compute.Reconciler.{
  TickFaults, wanted, reconcile, settle_row, settle_rows, tick_notices, noticed, count_changed,
  tick,
}

pub same_status_refl : (s : Status) → same_status s s ≡ true
unfolding same_status
same_status_refl pending = refl
same_status_refl running = refl
same_status_refl stopping = refl
same_status_refl stopped = refl
same_status_refl terminating = refl
same_status_refl terminated = refl
same_status_refl failed = refl
same_status_refl (unknown s) = (text_eq_iff s s).1 refl

wanted-twice : (s t : Status) (g : Lookup Status) → wanted s g ≡ some t → wanted t g ≡ none
unfolding wanted same_status
wanted-twice s t missing e = ground (arith, e)
wanted-twice s t broken e = ground (arith, e)
wanted-twice s t (found u) e = ground (arith, e, same_status_refl u)

reconcile-settle_row :
    (f : TickFaults) (w : Cloud) (i : ComputeInstance) → reconcile f w (settle_row f w i) ≡ none
unfolding settle_row reconcile
reconcile-settle_row f w i = elim (Option-cases (reconcile f w i)) [
  | inl e ↦ simp (e, settle_row) refl
  | inr (s, e) ↦
      rw (e, settle_row)
        (ground (
          arith,
          e,
          wanted-twice i.status s
              (get_state w.provision_delay w.stop_delay w.now i.provider_id w.provider),
        ))
]

settle_row-idle :
    (f : TickFaults) (w : Cloud) (i : ComputeInstance)
    → reconcile f w i ≡ none
    → settle_row f w i ≡ i
unfolding settle_row
settle_row-idle f w i e = rw (e, settle_row) refl

pub settle_row-id :
    (f : TickFaults) (w : Cloud) (i : ComputeInstance) → (settle_row f w i).id ≡ i.id
unfolding settle_row
settle_row-id f w i = elim (Option-cases (reconcile f w i)) [
  | inl e ↦ rw (e, settle_row) refl
  | inr (s, e) ↦ rw (e, settle_row) refl
]

rows-Idle :
    (f : TickFaults) (w : Cloud) (l : List ComputeInstance)
    → settle_rows f w (settle_rows f w l) ≡ settle_rows f w l
unfolding settle_rows
rows-Idle f w [] = refl
rows-Idle f w (i ∷ l) =
    rw (settle_row-idle f w (settle_row f w i) (reconcile-settle_row f w i), rows-Idle f w l) refl

noticed-idle :
    (f : TickFaults) (w : Cloud) (i : ComputeInstance) (n : List Notice)
    → reconcile f w i ≡ none
    → noticed f w i n ≡ n
unfolding noticed
noticed-idle f w i n e = rw (e, noticed) refl

notices-Idle :
    (f : TickFaults) (w : Cloud) (l : List ComputeInstance) (n : List Notice)
    → tick_notices f w (settle_rows f w l) n ≡ n
unfolding settle_rows tick_notices
notices-Idle f w [] n = refl
notices-Idle f w (i ∷ l) n =
    ap (tick_notices f w (settle_rows f w l))
      (noticed-idle f w (settle_row f w i) n (reconcile-settle_row f w i))
    ∙ notices-Idle f w l n

count-Idle :
    (f : TickFaults) (w : Cloud) (l : List ComputeInstance)
    → count_changed f w (settle_rows f w l) ≡ 0
unfolding settle_rows count_changed
count-Idle f w [] = refl
count-Idle f w (i ∷ l) = rw (reconcile-settle_row f w i, count_changed) (count-Idle f w l)

-- The pass reads neither the instances nor the notices of the state.
abbrev after : List ComputeInstance → List Notice → Cloud → Cloud
after l n w = record w { instances = l; notices = n }

rows-after :
    (f : TickFaults) (w : Cloud) (k l : List ComputeInstance) (n : List Notice)
    → settle_rows f (after k n w) l ≡ settle_rows f w l
unfolding settle_rows settle_row reconcile
rows-after f w k [] n = refl
rows-after f w k (i ∷ l) n = ap (λ z. settle_row f w i ∷ z) (rows-after f w k l n)

notices-after :
    (f : TickFaults) (w : Cloud) (k l : List ComputeInstance) (n m : List Notice)
    → tick_notices f (after k n w) l m ≡ tick_notices f w l m
unfolding tick_notices noticed reconcile
notices-after f w k [] n m = refl
notices-after f w k (i ∷ l) n m = notices-after f w k l n (noticed f w i m)

count-after :
    (f : TickFaults) (w : Cloud) (k l : List ComputeInstance) (n : List Notice)
    → count_changed f (after k n w) l ≡ count_changed f w l
unfolding count_changed reconcile
count-after f w k [] n = refl
count-after f w k (i ∷ l) n =
    ap (λ z. elim (reconcile f w i) as (λ _. ℕ) [ none ↦ z | some _ ↦ suc z ])
      (count-after f w k l n)

tick-listed :
    (f : TickFaults) (w : Cloud)
    → f.list ≡ false
    → tick f w ≡ (
      after (settle_rows f w w.instances) (tick_notices f w w.instances w.notices) w,
      some (count_changed f w w.instances),
    )
unfolding tick
tick-listed f w e = rw (e, tick) refl

-- A pass of the reconciler, whichever of its calls fail, leaves nothing to a second pass at the same
-- time on which the same calls fail: where the first pass lists the instances, the second changes no
-- row, records nothing and counts 0.
pub tick_twice :
    (f : TickFaults) (w : Cloud) → f.list ≡ false → tick f (tick f w).0 ≡ ((tick f w).0, some 0)
tick_twice f w e =
    let l = settle_rows f w w.instances in
    let n = tick_notices f w w.instances w.notices in
    let rows = rows-after f w l l n ∙ rows-Idle f w w.instances in
    let notes = notices-after f w l l n n ∙ notices-Idle f w w.instances n in
    let count = count-after f w l l n ∙ count-Idle f w w.instances in
    rw (tick-listed f w e, tick-listed f (after l n w) e, rows, notes, count) refl
