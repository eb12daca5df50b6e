-- ===== src/Instances/Form/Laws.antt =====
-- The presets and the estimate of the form.
use iaas_platform.Base.{◌⊎◌, inl, inr, Option-cases, ℕ, ◌+◌, ◌*◌, ◌≡◌, none, some, arith}
use iaas_platform.Base.Text.{Text, lit, text_eq}
use iaas_platform.World.{InstanceForm}
use iaas_platform.Instances.Form.{
  cpu_options, memory_options, disk_options, select_value, Preset, find_preset, monthly_cents,
  update_cost, choose, preset_field,
}

listed :
    (p : Text) (q : Preset)
    → find_preset p ≡ some q
    → (select_value cpu_options q.cpu ≡ q.cpu)
      × (select_value memory_options q.memory ≡ q.memory)
      × (select_value disk_options q.disk ≡ q.disk)
unfolding find_preset select_value text_eq lit
listed p q h = ground arith

-- Choosing a preset sets the three selects to its values, which are all among their options, and
-- the estimate to the cost of these values; a choice that is no preset changes nothing else.
pub choose-preset :
    (p : Text) (f : InstanceForm)
    → ((q : Preset) × (find_preset p ≡ some q)
        × (choose preset_field p f
            ≡ update_cost (record f { preset = p; cpu = q.cpu; memory = q.memory; disk = q.disk })))
      ⊎ ((find_preset p ≡ none) × (choose preset_field p f ≡ record f { preset = p }))
unfolding choose
choose-preset p f = elim (Option-cases (find_preset p)) [
  | inl h ↦ inr (h, ground arith)
  | inr (q, h) ↦ inl (q, h, ground (arith, listed p q h))
]

-- For memory in steps of 512 MB and disks in steps of 10 GB, as all the options are, the estimate
-- is exact: 7.30 dollars a core, 3.65 dollars for 512 MB and 7.30 dollars for 10 GB.
pub monthly_cents-exact :
    (cpu m d : ℕ) → monthly_cents cpu (512 * m) (10 * d) ≡ 730 * cpu + 365 * m + 730 * d
unfolding monthly_cents
monthly_cents-exact cpu m d = omega arith
