-- ===== src/Tests/Forms.antt =====
-- The forms at concrete inputs.
use iaas_platform.Base.{◌≡◌, refl, ◌≢◌, []}
use iaas_platform.Base.Text.{lit, trim, text_eq}
use iaas_platform.Orgs.{slug_of}
use iaas_platform.Instances.Form.{find_preset, select_value, choose, preset_field, new_form}

slug_of_name : slug_of (lit "My  Org -- 2!") ≡ lit "myorg-2"
unfolding slug_of lit
slug_of_name = refl

name_left : trim (lit " My Org") ≡ lit "My Org"
unfolding trim lit
name_left = refl

not_blank : trim (lit " My Org") ≢ []
unfolding lit
not_blank = rw name_left (λ e. cc)

slug_left : slug_of (lit "My  Org -- 2!") ≢ []
unfolding lit
slug_left = rw slug_of_name (λ e. cc)

cost_of_medium : (choose preset_field (lit "medium") new_form).cost ≡ 8030
unfolding choose new_form lit find_preset text_eq select_value
cost_of_medium = refl
