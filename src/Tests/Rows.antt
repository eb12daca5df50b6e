-- ===== src/Tests/Rows.antt =====
-- Rows, buttons and answers at concrete data.
use iaas_platform.Base.{◌≡◌, refl, ◌⊎◌, true, false, some, [], ◌∷◌}
use iaas_platform.Api.{stop, terminate, terminated, running}
use iaas_platform.Rows
use iaas_platform.Rows.{
  days_left, ends_in, status_cell, instance_action_buttons, confirm_act, suspended_to,
}
use iaas_platform.Lifecycle.Offers.{offers, offers-act}
use iaas_platform.Server.{found}
use iaas_platform.Server.Compute.{find_by_id}
use iaas_platform.Server.Compute.Service.{act, carry_out, get, refused, done, invalid_transition}
use iaas_platform.Server.Compute.Final.{no_faults}
use iaas_platform.Tests.Compute.{cloud, vm}
use iaas_platform.Tests.Data.{web}

row_of_web : instance_action_buttons web ≡ Rows.act stop 5 ∷ confirm_act terminate 5 ∷ []
unfolding instance_action_buttons
row_of_web = refl

one_ms_more : days_left 86400001 ≡ 2
unfolding days_left
one_ms_more = refl

-- Bob's suspension ends in less than two days, and a day earlier it was farther off.
cells_of_bob :
    (status_cell (some 100000000) 0 ≡ ends_in 2)
    × (status_cell (some 200000000) 0 ≡ suspended_to 200000000)
unfolding status_cell days_left
cells_of_bob = (refl, refl)

vm-got : get no_faults 1 1 cloud ≡ found vm
unfolding get find_by_id
vm-got = refl

-- The row of the running instance, and the request to stop it.
offers-act_example :
    ((offers web stop ≡ true)
      × (act no_faults (found tt) stop 1 1 cloud ≡ carry_out no_faults stop vm cloud))
    ⊎ ((offers web stop ≡ false)
        × (act no_faults (found tt) stop 1 1 cloud ≡ (cloud, refused invalid_transition)))
    ⊎ ((offers web stop ≡ false)
        × (stop ≡ terminate)
        × (running ≡ terminated)
        × (act no_faults (found tt) stop 1 1 cloud ≡ (cloud, done)))
offers-act_example = offers-act web stop no_faults 1 1 vm cloud vm-got refl tt
