-- ===== src/Instances/Form.antt =====
-- The form of `showCreateInstance`, of internal/dashboard/static/app.js: its selects, the presets
-- and the estimated cost.
pub mod Laws
use iaas_platform.Base.{
  ℕ, ◌+◌, ◌*◌, ◌/◌, Bool, true, false, Option, none, some, List, [], ◌∷◌, map, any, keep,
  if◌then◌else◌,
}
use iaas_platform.Base.Text.{Text, lit, text_eq, is_empty, ℤ, pos, negsuc, parse_int}
use iaas_platform.World.{
  World, InstanceForm, Overlay, Modal, instance_form, confirm_action_modal, instance_details,
  remove_member_modal, suspend_form, webhook_delete_modal, invoice_details, webhook_form, org_form,
  invite_form, password_form, delete_account_form,
}

abbrev pub cpu_options : List Text
cpu_options = lit "1" ∷ lit "2" ∷ lit "4" ∷ lit "8" ∷ lit "16" ∷ []

abbrev pub memory_options : List Text
memory_options = lit "512" ∷ lit "1024" ∷ lit "2048" ∷ lit "4096" ∷ lit "8192" ∷ lit "16384" ∷ []

abbrev pub disk_options : List Text
disk_options = lit "10" ∷ lit "20" ∷ lit "50" ∷ lit "100" ∷ lit "250" ∷ lit "500" ∷ []

abbrev pub preset_options : List Text
preset_options = lit "custom" ∷ lit "micro" ∷ lit "small" ∷ lit "medium" ∷ lit "large" ∷ []

-- `select.value = v`: a value that is no option leaves the select without one.
unfoldable pub select_value : List Text → Text → Text
select_value options v = if any (text_eq v) options then v else []

pub record Preset : Type 0 where
  pub cpu : Text
  pub memory : Text
  pub disk : Text

-- `presets[preset]`
unfoldable pub find_preset : Text → Option Preset
find_preset p =
    if text_eq p (lit "micro")
    then some (record { cpu = lit "1"; memory = lit "512"; disk = lit "10" })
    else if text_eq p (lit "small")
    then some (record { cpu = lit "2"; memory = lit "1024"; disk = lit "20" })
    else if text_eq p (lit "medium")
    then some (record { cpu = lit "4"; memory = lit "2048"; disk = lit "50" })
    else if text_eq p (lit "large")
    then some (record { cpu = lit "8"; memory = lit "4096"; disk = lit "100" })
    else none

-- `parseInt(s) || 0` for a select, none of whose options is negative.
unfoldable pub number_or_zero : Text → ℕ
unfolding parse_int
number_or_zero s = elim (parse_int s) [ none ↦ 0 | some (pos n) ↦ n | some (negsuc n) ↦ 0 ]

-- 730 hours at $0.01 for a core, $0.01 for a GB of memory (1024 MB) and $0.001 for a GB of disk, in
-- cents: the exact amount rounded to the nearest cent. The source rounds a float near it.
unfoldable pub monthly_cents : ℕ → ℕ → ℕ → ℕ
monthly_cents cpu memory_mb disk =
    (2 * (730 * (10240 * cpu + 10 * memory_mb + 1024 * disk)) + 10240) / (2 * 10240)

-- `updateCostEstimate`
unfoldable pub update_cost : InstanceForm → InstanceForm
unfolding number_or_zero monthly_cents
update_cost f = record f {
  cost = monthly_cents (number_or_zero f.cpu) (number_or_zero f.memory) (number_or_zero f.disk);
}

-- The form as `showCreateInstance` leaves it: a select starts at its first option.
unfoldable pub new_form : InstanceForm
unfolding update_cost
new_form = update_cost (record {
  instance_type = [];
  preset = lit "custom";
  cpu = lit "1";
  memory = lit "512";
  disk = lit "10";
  cost = 0;
})

unfoldable pub put_preset : Preset → InstanceForm → InstanceForm
put_preset p f = update_cost (record f {
  cpu = select_value cpu_options p.cpu;
  memory = select_value memory_options p.memory;
  disk = select_value disk_options p.disk;
})

-- `applyPreset`
unfoldable pub apply_preset : InstanceForm → InstanceForm
unfolding put_preset
apply_preset f = elim (find_preset f.preset) [ none ↦ f | some p ↦ put_preset p f ]

-- `updateInstancePresets`
unfoldable pub update_presets : InstanceForm → InstanceForm
update_presets f =
    if is_empty f.instance_type
    then record f { preset = select_value preset_options (lit "custom") }
    else f

pub data Field : Type 0 where
  type_field preset_field cpu_field memory_field disk_field : Field

-- The user chooses a value, and the listener of that select runs.
unfoldable pub choose : Field → Text → InstanceForm → InstanceForm
unfolding update_presets apply_preset
choose type_field v f = update_presets (record f { instance_type = v })
choose preset_field v f = apply_preset (record f { preset = v })
choose cpu_field v f = update_cost (record f { cpu = v })
choose memory_field v f = update_cost (record f { memory = v })
choose disk_field v f = update_cost (record f { disk = v })

abbrev choose_in : Field → Text → Modal → Modal
choose_in fd v m = elim m [ instance_form f ↦ instance_form (choose fd v f) | other ↦ other ]

-- The same in the open dialogs.
unfoldable pub choose_option : Field → Text → World → World
unfolding choose
choose_option fd v w = record w {
  overlays = map (λ (o : Overlay). record o { modal = choose_in fd v o.modal }) w.overlays;
}
