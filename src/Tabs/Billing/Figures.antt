-- ===== src/Tabs/Billing/Figures.antt =====
-- The figures of the tab Billing.
use iaas_platform.Base.{
  ◌⊎◌, ℕ, ◌+◌, ◌*◌, ◌/◌, ◌%◌, ◌≤◌, ◌<◌, ◌≡◌, refl, ◌≢◌, List, [], ◌∷◌, length, arith,
}
use native.Mathlib.Nat.{mod-lt, div-add-mod}
use iaas_platform.Api.{Invoice, Usage}
use iaas_platform.Tabs.Billing.{total_cents, average_cents, billing_content}

nearest :
    (t n q r : ℕ)
    → 2 * n * q + r ≡ 2 * t + n
    → r < 2 * n
    → (2 * n * q ≤ 2 * t + n) × (2 * t < 2 * n * q + n)
nearest t n q r whole rest = omega arith

average_cents-cons :
    (inv : Invoice) (l : List Invoice)
    → average_cents (inv ∷ l)
      ≡ (2 * total_cents (inv ∷ l) + length (inv ∷ l)) / (2 * length (inv ∷ l))
unfolding average_cents
average_cents-cons inv l = ground arith

-- The estimated cost is the mean of the invoices' amounts to the nearest cent: times their number
-- it differs from their sum by at most half a cent an invoice.
pub average_cents-nearest :
    (l : List Invoice)
    → l ≢ []
    → (2 * length l * average_cents l ≤ 2 * total_cents l + length l)
      × (2 * total_cents l < 2 * length l * average_cents l + length l)
average_cents-nearest [] h = absurd (h refl)
average_cents-nearest (inv ∷ l) h =
    let t = total_cents (inv ∷ l) in
    let n = length (inv ∷ l) in
    rw (average_cents-cons inv l) (
      nearest t n ((2 * t + n) / (2 * n)) ((2 * t + n) % (2 * n)) (div-add-mod (2 * t + n) (2 * n))
        (mod-lt (2 * t + n) (omega arith)))

-- No bar is wider than its box, and none divides by zero. The bar of the CPU hours is empty when
-- there are none and full otherwise, whatever their number.
pub bars :
    (u : Usage) (l : List Invoice)
    → let tab = billing_content u l in
      (tab.cpu_bar.num ≤ 100 * tab.cpu_bar.den)
      × (0 < tab.cpu_bar.den)
      × (tab.memory_bar.num ≤ 100 * tab.memory_bar.den)
      × (0 < tab.memory_bar.den)
      × (tab.disk_bar.num ≤ 100 * tab.disk_bar.den)
      × (0 < tab.disk_bar.den)
      × (((u.cpu_hours ≡ 0) × (tab.cpu_bar.num ≡ 0))
          ⊎ ((u.cpu_hours ≢ 0) × (tab.cpu_bar.num ≡ 100 * tab.cpu_bar.den)))
unfolding billing_content
bars u l = ground arith
