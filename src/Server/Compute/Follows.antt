-- ===== src/Server/Compute/Follows.antt =====
-- The statuses of the rows along sequences of requests, ticks and delays, against the table
-- `instanceTransitions`: internal/compute/service.go and reconciler.go.
use iaas_platform.Base.{
  ℕ, ◌≡◌, ◌∙◌, inl, inr, true, some, List, [], ◌∷◌, All, ◌==◌, arith, Bool-cases, Option-cases,
}
use iaas_platform.Api.{Status, Action}
use iaas_platform.Lifecycle.{can_transition, target}
use iaas_platform.Server.Compute.{Cloud, ComputeInstance, find_by_id}
use iaas_platform.Server.Compute.Reconciler.{TickFaults, reconcile, settle_row, tick}
use iaas_platform.Server.Compute.System.{Move, creates, acts, ticks, passes, move}
use iaas_platform.Server.Compute.Requests.{create-rows}
use iaas_platform.Server.Compute.Found.{
  find-settle_rows, find-append, find-update_status, find-update_status_other,
}
use iaas_platform.Server.Compute.Coherent.{coherent, allowed, reconcile-allowed}
use iaas_platform.Server.Compute.Runs.{Reliable, Runs, Runs-Coherent, taken, act-taken}

-- A row after another: the same, or with a status that the table allows after the other's.
pub data Follows (i : ComputeInstance) : ComputeInstance → Type 0 where
  stays : Follows i i
  turns : (s : Status) → can_transition i.status s ≡ true → Follows i (record i { status = s })

-- The row of the key in the cloud, and how it follows.
pub record FollowedBy (id : ℕ) (i : ComputeInstance) (w : Cloud) : Type 0 where
  pub row : ComputeInstance
  pub stored : find_by_id id w.instances ≡ some row
  pub follows : Follows i row

rows-coherent_found :
    (id : ℕ) (w : Cloud) (l : List ComputeInstance) (i : ComputeInstance)
    → All (λ (j : ComputeInstance). coherent w j ≡ true) l
    → find_by_id id l ≡ some i
    → coherent w i ≡ true
unfolding find_by_id
rows-coherent_found id w [] i h e = ground (arith, e)
rows-coherent_found id w (k ∷ l) i (c, h) e = elim (Bool-cases (k.id == id)) [
  | inl s ↦ let t : i ≡ k = ground (arith, s, e) in rw t c
  | inr s ↦ rows-coherent_found id w l i h (ground (arith, s, e))
]

settle_row-Follows :
    (f : TickFaults) (w : Cloud) (i : ComputeInstance)
    → coherent w i ≡ true
    → Follows i (settle_row f w i)
unfolding settle_row allowed
settle_row-Follows f w i c = elim (Option-cases (reconcile f w i)) [
  | inl e ↦ simp (e, settle_row) stays
  | inr (s, e) ↦ simp (e, settle_row) (turns s (simp (e, allowed) at (reconcile-allowed f w i c)))
]

act-FollowedBy :
    (a : Action) (i j : ComputeInstance) (id : ℕ) (w : Cloud)
    → find_by_id i.id w.instances ≡ some i
    → can_transition i.status (target a) ≡ true
    → find_by_id id w.instances ≡ some j
    → FollowedBy id j (taken a i w)
act-FollowedBy a i j id w l t h = elim (Bool-cases (id == i.id)) [
  | inr n ↦ record {
    row = j;
    stored = find-update_status_other id i.id (target a) w.instances n ∙ h;
    follows = stays;
  }
  | inl y ↦
      let s : id ≡ i.id = ground (arith, y) in
      let g : find_by_id i.id w.instances ≡ some j = simp s at h in
      let k : i ≡ j = ground (arith, l, g) in
      record {
        row = record j { status = target a };
        stored = rw s (find-update_status i.id (target a) w.instances j g);
        follows = turns (target a) (simp k at t);
      }
]

-- From a cloud without instances, along every sequence of requests, passes of the reconciler and
-- delays, whichever calls fail but these: no request loses the update of a status after the provider
-- accepted its call, and each identifier that is made for a new instance is that of no row. Then
-- whatever move comes next, every stored instance stays stored, and its row stays the same but for
-- a status that `instanceTransitions` allows after the one it had: also the reconciler, which does
-- not look at that table, keeps to it.
pub follows_the_table :
    {w v : Cloud} (id : ℕ) (i : ComputeInstance) (m : Move)
    → w.instances ≡ []
    → Runs w v
    → Reliable m v
    → find_by_id id v.instances ≡ some i
    → FollowedBy id i (move m v)
unfolding move tick
follows_the_table {v} id i (creates f m org user r pid) e z n h =
    elim (create-rows f m org user r pid v) [
      | inl k ↦ record { row = i; stored = rw k h; follows = stays }
      | inr (c, g, a) ↦ record {
        row = i;
        stored = rw a.rows (find-append id v.instances _ i h);
        follows = stays;
      }
    ]
follows_the_table {v} id i (acts f m a org id') e z n h = elim (act-taken f m a org id' v n) [
  | inl k ↦ record { row = i; stored = rw k h; follows = stays }
  | inr (j, l, t, k) ↦ rw k (act-FollowedBy a j i id v l t h)
]
follows_the_table {v} id i (ticks f) e z n h = elim (Bool-cases f.list) [
  | inl k ↦ record { row = i; stored = rw (k, tick) h; follows = stays }
  | inr k ↦ record {
    row = settle_row f v i;
    stored = rw (k, tick) (find-settle_rows f v id v.instances i h);
    follows =
        settle_row-Follows f v i
          (rows-coherent_found id v v.instances i (Runs-Coherent e z).rows h);
  }
]
follows_the_table id i (passes ms) e z n h = record { row = i; stored = h; follows = stays }
