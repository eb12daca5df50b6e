-- ===== src/Server/Compute/Provider.antt =====
-- `SimProvider` of internal/compute/sim_provider.go over the table `provider_state`.
use iaas_platform.Base.{ℕ, ◌+◌, Option, none, some, List, [], ◌∷◌, find, leb, ◌==◌, if◌then◌else◌}
use iaas_platform.Api.{Status, pending, running, stopping, stopped, terminated}
use iaas_platform.Server.{Lookup, found, missing, broken}
use iaas_platform.Server.Compute.{ProviderState}

-- `Set`: an upsert by `provider_id`.
unfoldable pub set_state : ℕ → Status → ℕ → List ProviderState → List ProviderState
set_state pid s at [] = record { provider_id = pid; desired_state = s; transition_at = at } ∷ []
set_state pid s at (p ∷ l) =
    let rest = set_state pid s at l in
    if p.provider_id == pid
    then record { provider_id = pid; desired_state = s; transition_at = at } ∷ l
    else p ∷ rest

unfoldable pub find_state : ℕ → List ProviderState → Option ProviderState
find_state pid l = find (λ (p : ProviderState). p.provider_id == pid) l

-- The `switch` of `GetState`; a clock that went back has not reached the delay.
unfoldable pub report : ℕ → ℕ → ℕ → Status → ℕ → Lookup Status
report provision_delay stop_delay now pending at =
    if leb (at + provision_delay) now then found running else found pending
report provision_delay stop_delay now stopping at =
    if leb (at + stop_delay) now then found stopped else found stopping
report provision_delay stop_delay now terminated at = found terminated
report provision_delay stop_delay now _ at = broken

-- `GetState`
unfoldable pub get_state : ℕ → ℕ → ℕ → ℕ → List ProviderState → Lookup Status
unfolding find_state report
get_state provision_delay stop_delay now pid l = elim (find_state pid l) [
  | none ↦ missing
  | some p ↦ report provision_delay stop_delay now p.desired_state p.transition_at
]
