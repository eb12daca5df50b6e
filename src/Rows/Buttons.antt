-- ===== src/Rows/Buttons.antt =====
-- Which lifecycle buttons an instance has.
use iaas_platform.Base.{◌≡◌, List, [], ◌∷◌, arith}
use iaas_platform.Api.{Instance, Action}
use iaas_platform.Rows.{
  Call, act, confirm_act, instance_action_buttons, instance_modal_action_buttons,
}

-- The lifecycle actions among the calls; copying the address is none.
abbrev pub requested : List Call → List Action
requested [] = []
requested (act a _ ∷ cs) = a ∷ requested cs
requested (confirm_act a _ ∷ cs) = a ∷ requested cs
requested (_ ∷ cs) = requested cs

-- The details dialog offers exactly the lifecycle actions of the instance's row, in that order.
pub modal-eq-row_actions :
    (i : Instance)
    → requested (instance_modal_action_buttons i) ≡ requested (instance_action_buttons i)
unfolding instance_modal_action_buttons instance_action_buttons
modal-eq-row_actions i = ground arith
