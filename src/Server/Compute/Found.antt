-- ===== src/Server/Compute/Found.antt =====
-- The row of a key under the changes of the rows, and the state of an identifier under those of
-- the provider.
use iaas_platform.Base.{
  ℕ, ◌≡◌, refl, sym, ap, ◌∙◌, inl, inr, true, false, some, List, [], ◌∷◌, ◌++◌, arith, ◌==◌,
  Bool-cases,
}
use mathlib.Core.Option.{some-injective}
use iaas_platform.Api.{Status}
use iaas_platform.Server.Compute.{ComputeInstance, Cloud, ProviderState, find_by_id, update_status}
use iaas_platform.Server.Compute.Provider.{set_state, find_state, get_state, report}
use iaas_platform.Server.Compute.Reconciler.{TickFaults, settle_row, settle_rows}
use iaas_platform.Server.Compute.Settling.{settle_row-id}

find-here :
    (id : ℕ) (x : ComputeInstance) (l : List ComputeInstance)
    → (x.id == id) ≡ true
    → find_by_id id (x ∷ l) ≡ some x
unfolding find_by_id
find-here id x l e = rw e refl

find-there :
    (id : ℕ) (x : ComputeInstance) (l : List ComputeInstance)
    → (x.id == id) ≡ false
    → find_by_id id (x ∷ l) ≡ find_by_id id l
unfolding find_by_id
find-there id x l e = rw e refl

find-nowhere :
    (id : ℕ) (i j : ComputeInstance) → find_by_id id [] ≡ some i → find_by_id id [] ≡ some j
unfolding find_by_id
find-nowhere id i j e = ground arith

pub find-settle_rows :
    (f : TickFaults) (w : Cloud) (id : ℕ) (l : List ComputeInstance) (i : ComputeInstance)
    → find_by_id id l ≡ some i
    → find_by_id id (settle_rows f w l) ≡ some (settle_row f w i)
unfolding settle_rows
find-settle_rows f w id [] i e = find-nowhere id i (settle_row f w i) e
find-settle_rows f w id (x ∷ l) i e =
    let same = ap (λ n. n == id) (settle_row-id f w x) in
    elim (Bool-cases (x.id == id)) [
      | inl h ↦
          find-here id (settle_row f w x) (settle_rows f w l) (same ∙ h)
          ∙ ap (λ y. some (settle_row f w y)) (some-injective x i (sym (find-here id x l h) ∙ e))
      | inr h ↦
          find-there id (settle_row f w x) (settle_rows f w l) (same ∙ h)
          ∙ find-settle_rows f w id l i (sym (find-there id x l h) ∙ e)
    ]

pub find-append :
    (id : ℕ) (l k : List ComputeInstance) (i : ComputeInstance)
    → find_by_id id l ≡ some i
    → find_by_id id (l ++ k) ≡ some i
unfolding find_by_id
find-append id [] k i e = ground arith
find-append id (x ∷ l) k i e = ground (arith, find-append id l k i)

pub find-update_status :
    (id : ℕ) (s : Status) (l : List ComputeInstance) (i : ComputeInstance)
    → find_by_id id l ≡ some i
    → find_by_id id (update_status id s l) ≡ some (record i { status = s })
unfolding find_by_id update_status
find-update_status id s [] i e = ground arith
find-update_status id s (x ∷ l) i e = ground (arith, find-update_status id s l i)

pub find-update_status_other :
    (id id' : ℕ) (s : Status) (l : List ComputeInstance)
    → (id == id') ≡ false
    → find_by_id id (update_status id' s l) ≡ find_by_id id l
unfolding find_by_id update_status
find-update_status_other id id' s [] n = refl
find-update_status_other id id' s (x ∷ l) n = ground (arith, find-update_status_other id id' s l n)

find-set_state :
    (pid : ℕ) (s : Status) (at : ℕ) (l : List ProviderState)
    → find_state pid (set_state pid s at l)
      ≡ some (record { provider_id = pid; desired_state = s; transition_at = at })
unfolding find_state set_state
find-set_state pid s at [] = ground arith
find-set_state pid s at (p ∷ l) = ground (arith, find-set_state pid s at l)

pub get_state-set_state :
    (provision_delay stop_delay now pid : ℕ) (s : Status) (at : ℕ) (l : List ProviderState)
    → get_state provision_delay stop_delay now pid (set_state pid s at l)
      ≡ report provision_delay stop_delay now s at
unfolding get_state
get_state-set_state provision_delay stop_delay now pid s at l =
    rw (find-set_state pid s at l, get_state) refl
