-- ===== src/Server/Compute/Growing.antt =====
-- The rows and the states of the provider when time passes or a row is added:
-- internal/compute/service.go.
use iaas_platform.Base.{
  ℕ, ◌+◌, ◌≡◌, refl, inl, inr, true, false, not, ◌&&◌, ◌||◌, List, [], ◌∷◌, ◌++◌, All, ◌==◌, arith,
  Bool-cases, Option-cases,
}
use iaas_platform.Api.{Status, pending, running, stopping, stopped, terminating, terminated}
use iaas_platform.Server.Compute.{Cloud, ComputeInstance, fits_int}
use iaas_platform.Server.Compute.Provider.{find_state}
use iaas_platform.Server.Compute.Service.{Faults, Spec, insert_row, new_row}
use iaas_platform.Server.Compute.Coherent.{
  coherent, agrees, agrees_with, has_pid, own_pids, Coherent,
}
use iaas_platform.Server.Compute.Calls.{calling, calling-rows, find_state-set_state}

agrees-later :
    (a b now ms : ℕ) (s d : Status) (at : ℕ)
    → agrees a b now s d at ≡ true
    → agrees a b (now + ms) s d at ≡ true
unfolding agrees
agrees-later a b now ms pending pending at h = refl
agrees-later a b now ms running pending at h = ground (arith, h)
agrees-later a b now ms stopping stopping at h = refl
agrees-later a b now ms stopped stopping at h = ground (arith, h)
agrees-later a b now ms terminating terminated at h = refl
agrees-later a b now ms terminated terminated at h = refl
agrees-later a b now ms _ _ at h = h

abbrev pub later : ℕ → Cloud → Cloud
later ms w = record w { now = w.now + ms }

coherent-later :
    (ms : ℕ) (w : Cloud) (i : ComputeInstance)
    → coherent w i ≡ true
    → coherent (later ms w) i ≡ true
unfolding coherent agrees_with
coherent-later ms w i h = elim (Option-cases (find_state i.provider_id w.provider)) [
  | inl e ↦ ground (arith, e, h)
  | inr (p, e) ↦
      simp (e, agrees_with)
        (agrees-later w.provision_delay w.stop_delay w.now ms i.status p.desired_state
          p.transition_at (simp (e, agrees_with) at h))
]

pub rows-later :
    (ms : ℕ) (w : Cloud) (l : List ComputeInstance)
    → All (λ (i : ComputeInstance). coherent w i ≡ true) l
    → All (λ (i : ComputeInstance). coherent (later ms w) i ≡ true) l
rows-later ms w [] h = tt
rows-later ms w (i ∷ l) (a, h) = (coherent-later ms w i a, rows-later ms w l h)

rows-append :
    (w : Cloud) (l : List ComputeInstance) (i : ComputeInstance)
    → All (λ (j : ComputeInstance). coherent w j ≡ true) l
    → coherent w i ≡ true
    → All (λ (j : ComputeInstance). coherent w j ≡ true) (l ++ (i ∷ []))
rows-append w [] i h c = (c, tt)
rows-append w (j ∷ l) i (a, h) c = (a, rows-append w l i h c)

has_pid-append :
    (p : ℕ) (l : List ComputeInstance) (i : ComputeInstance)
    → has_pid p l ≡ false
    → (i.provider_id == p) ≡ false
    → has_pid p (l ++ (i ∷ [])) ≡ false
has_pid-append p [] i h n = ground (arith, n)
has_pid-append p (j ∷ l) i h n = ground (arith, h, has_pid-append p l i (ground (arith, h)) n)

own_pids-append :
    (l : List ComputeInstance) (i : ComputeInstance)
    → own_pids l ≡ true
    → has_pid i.provider_id l ≡ false
    → own_pids (l ++ (i ∷ [])) ≡ true
unfolding own_pids
own_pids-append [] i u n = ground arith
own_pids-append (j ∷ l) i u n =
    let a = has_pid-append j.provider_id l i (ground (arith, u)) (ground (arith, n)) in
    ground (arith, a, own_pids-append l i (ground (arith, u)) (ground (arith, n)))

calling-Coherent :
    (p : ℕ) (s : Status) (w : Cloud)
    → has_pid p w.instances ≡ false
    → Coherent w
    → Coherent (calling p s w)
calling-Coherent p s w n c = record {
  rows = calling-rows p s w w.instances n c.rows;
  pids = c.pids;
}

new_row-coherent :
    (p id org user : ℕ) (s : Spec) (w : Cloud)
    → coherent (calling p pending w) (new_row id org user s p) ≡ true
unfolding coherent agrees_with agrees new_row
new_row-coherent p id org user s w = rw (find_state-set_state p pending w.now w.provider) refl

pub insert_row-Coherent :
    (f : Faults) (org user : ℕ) (s : Spec) (p : ℕ) (w : Cloud)
    → has_pid p w.instances ≡ false
    → Coherent w
    → Coherent (insert_row f org user s p (calling p pending w)).0
unfolding insert_row coherent
insert_row-Coherent f org user s p w n c =
    let v = calling p pending w in
    let d = calling-Coherent p pending w n c in
    elim (Bool-cases (f.insert || not (fits_int s.cpu && (fits_int s.mem && fits_int s.disk)))) [
      | inl a ↦ elim (Bool-cases f.cleanup) [
        | inl b ↦ simp (a, b, insert_row) d
        | inr b ↦ simp (a, b, insert_row) (calling-Coherent p terminated v n d)
      ]
      | inr a ↦
          simp (a, insert_row)
            (record {
              rows =
                  rows-append v w.instances (new_row w.next_id org user s p) d.rows
                    (new_row-coherent p w.next_id org user s w);
              pids = own_pids-append w.instances (new_row w.next_id org user s p) c.pids n;
            })
    ]
