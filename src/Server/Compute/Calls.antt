-- ===== src/Server/Compute/Calls.antt =====
-- The rows and the states of the provider under a call of the provider: internal/compute/service.go
-- and sim_provider.go.
use iaas_platform.Base.{
  ℕ, ◌≡◌, refl, ap, inl, inr, true, false, some, List, [], ◌∷◌, All, ◌==◌, arith, Bool-cases,
}
use iaas_platform.Api.{Status, pending, stopping, terminated, Action, start, stop, terminate}
use iaas_platform.Lifecycle.{target}
use iaas_platform.Server.Compute.{Cloud, ComputeInstance, ProviderState, find_by_id, update_status}
use iaas_platform.Server.Compute.Provider.{set_state, find_state}
use iaas_platform.Server.Compute.Service.{desired}
use iaas_platform.Server.Compute.Coherent.{agrees, agrees_with, coherent, has_pid, own_pids}

pub find_state-set_state :
    (p : ℕ) (s : Status) (at : ℕ) (l : List ProviderState)
    → find_state p (set_state p s at l)
      ≡ some (record { provider_id = p; desired_state = s; transition_at = at })
unfolding find_state set_state
find_state-set_state p s at [] = ground arith
find_state-set_state p s at (x ∷ l) = ground (arith, find_state-set_state p s at l)

find_state-other :
    (p p' : ℕ) (s : Status) (at : ℕ) (l : List ProviderState)
    → (p' == p) ≡ false
    → find_state p (set_state p' s at l) ≡ find_state p l
unfolding find_state set_state
find_state-other p p' s at [] n = ground (arith, n)
find_state-other p p' s at (x ∷ l) n = ground (arith, n, find_state-other p p' s at l n)

-- The cloud after a call of the provider.
abbrev pub calling : ℕ → Status → Cloud → Cloud
calling p s w = record w { provider = set_state p s w.now w.provider }

calling-other :
    (p : ℕ) (s : Status) (w : Cloud) (i : ComputeInstance)
    → (i.provider_id == p) ≡ false
    → coherent w i ≡ true
    → coherent (calling p s w) i ≡ true
unfolding coherent
calling-other p s w i n h =
    rw (find_state-other i.provider_id p s w.now w.provider (ground (arith, n))) h

pub calling-rows :
    (p : ℕ) (s : Status) (w : Cloud) (l : List ComputeInstance)
    → has_pid p l ≡ false
    → All (λ (i : ComputeInstance). coherent w i ≡ true) l
    → All (λ (i : ComputeInstance). coherent (calling p s w) i ≡ true) l
calling-rows p s w [] n h = tt
calling-rows p s w (i ∷ l) n (a, h) =
    (calling-other p s w i (ground (arith, n)) a, calling-rows p s w l (ground (arith, n)) h)

-- A row under the target of an accepted action, after the provider's call for it.
asked-coherent :
    (a : Action) (w : Cloud) (i : ComputeInstance)
    → coherent (calling i.provider_id (desired a) w) (record i { status = target a }) ≡ true
unfolding coherent agrees_with agrees target
asked-coherent start w i = rw (find_state-set_state i.provider_id pending w.now w.provider) refl
asked-coherent stop w i = rw (find_state-set_state i.provider_id stopping w.now w.provider) refl
asked-coherent terminate w i =
    rw (find_state-set_state i.provider_id terminated w.now w.provider) refl

found-pid :
    (id p : ℕ) (l : List ComputeInstance) (i : ComputeInstance)
    → find_by_id id l ≡ some i
    → has_pid p l ≡ false
    → (i.provider_id == p) ≡ false
unfolding find_by_id
found-pid id p [] i e n = ground (arith, e)
found-pid id p (x ∷ l) i e n = ground (arith, e, n, found-pid id p l i)

pub asked-rows :
    (a : Action) (w : Cloud) (i : ComputeInstance) (l : List ComputeInstance)
    → find_by_id i.id l ≡ some i
    → own_pids l ≡ true
    → All (λ (i : ComputeInstance). coherent w i ≡ true) l
    → All
        (λ (j : ComputeInstance). coherent (calling i.provider_id (desired a) w) j ≡ true)
        (update_status i.id (target a) l)
unfolding find_by_id update_status own_pids
asked-rows a w i [] e u h = tt
asked-rows a w i (k ∷ l) e u (c, h) = elim (Bool-cases (k.id == i.id)) [
  | inl s ↦
      let t : k ≡ i = ground (arith, s, e) in
      let o : has_pid i.provider_id l ≡ false = ground (arith, u, ap (λ z. z.provider_id) t) in
      simp s (rw t (asked-coherent a w i), calling-rows i.provider_id (desired a) w l o h)
  | inr s ↦
      let g : find_by_id i.id l ≡ some i = ground (arith, s, e) in
      let n = found-pid i.id k.provider_id l i g (ground (arith, u)) in
      simp s (
        calling-other i.provider_id (desired a) w k (ground (arith, n)) c,
        asked-rows a w i l g (ground (arith, u)) h,
      )
]

update_status-has_pid :
    (id p : ℕ) (s : Status) (l : List ComputeInstance)
    → has_pid p (update_status id s l) ≡ has_pid p l
unfolding update_status
update_status-has_pid id p s [] = refl
update_status-has_pid id p s (i ∷ l) = ground (arith, update_status-has_pid id p s l)

pub update_status-own_pids :
    (id : ℕ) (s : Status) (l : List ComputeInstance) → own_pids (update_status id s l) ≡ own_pids l
unfolding update_status own_pids
update_status-own_pids id s [] = refl
update_status-own_pids id s (i ∷ l) =
    ground (arith, update_status-own_pids id s l, update_status-has_pid id i.provider_id s l)
