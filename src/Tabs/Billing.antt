-- ===== src/Tabs/Billing.antt =====
-- The tab Billing of internal/dashboard/static/app.js.
pub mod Figures
use iaas_platform.Base.{
  ℕ, ◌+◌, ◌*◌, ◌/◌, Bool, Option, none, some, List, [], ◌∷◌, map, length, leb, ◌==◌, opt_eq, find,
  if◌then◌else◌,
}
use iaas_platform.Base.Text.{Text, lit, or_text}
use iaas_platform.Api.{
  Org, Usage, Invoice, Fetched, Response, success, failure, Shape, as_array, settle, usage,
  invoices,
}
use iaas_platform.Rows.{Markup, escaped, InvoiceRow, invoice_row}
use iaas_platform.World.{
  State, World, Fraction, BillingTab, message, billing_tab, info, billing_usage, billing_invoices,
  invoice_details,
}
use iaas_platform.World.Ops.{get_tab, set_tab, call, toast, modal}

unfoldable pub render_billing_tab : World → World
unfolding get_tab set_tab call
render_billing_tab w = elim (get_tab w.page) [
  | none ↦ w
  | some t ↦
      call (usage w.state.current_org) (billing_usage t)
        (set_tab t (message (lit "Loading billing data...")) w)
]

-- The first answer is only kept; the invoices are asked for whatever it was.
unfoldable pub usage_answered : ℕ → Fetched Usage → World → World
unfolding call
usage_answered t f w = call (invoices w.state.current_org) (billing_invoices t f) w

-- `reduce`, in cents instead of dollars.
unfoldable pub total_cents : List Invoice → ℕ
total_cents [] = 0
total_cents (inv ∷ l) = inv.amount_cents + total_cents l

-- `(totalCost / Math.max(invoices.length || 1, 1)).toFixed(2)`, in cents: the exact quotient
-- rounded to the nearest cent, up from a half. `toFixed` rounds a float near that quotient.
unfoldable pub average_cents : List Invoice → ℕ
unfolding total_cents
average_cents l = let n = if length l == 0 then 1 else length l in (2 * total_cents l + n) / (2 * n)

-- `Math.min(num / den * 100, 100)`
unfoldable pub percent : ℕ → ℕ → Fraction
percent num den =
    if leb den num then record { num = 100; den = 1 } else record { num = 100 * num; den = den }

-- `usage.cpu_hours || 1`
unfoldable pub hours_or_one : ℕ → ℕ
hours_or_one h = if h == 0 then 1000 else h

-- `Math.max(usage.cpu_hours || 1, 1)`
unfoldable pub at_least_one : ℕ → ℕ
unfolding hours_or_one
at_least_one h = if leb 1000 (hours_or_one h) then hours_or_one h else 1000

unfoldable pub billing_content : Usage → List Invoice → BillingTab
unfolding average_cents percent hours_or_one at_least_one invoice_row
billing_content u l = record {
  average = average_cents l;
  invoice_count = length l;
  usage = u;
  cpu_bar = percent u.cpu_hours (hours_or_one u.cpu_hours);
  memory_bar = percent u.memory_gb_hours (at_least_one u.cpu_hours);
  disk_bar = percent u.disk_gb_hours (at_least_one u.cpu_hours);
  rows = map invoice_row l;
}

unfoldable pub show_billing : ℕ → Response Usage → Response (Shape Invoice) → World → World
unfolding set_tab as_array billing_content
show_billing t (success _ u) (success _ body) w =
    set_tab t (billing_tab (billing_content u (as_array body))) w
show_billing t (success _ _) (failure _ _) w =
    set_tab t (message (lit "Failed to load billing data")) w
show_billing t (failure _ _) _ w = set_tab t (message (lit "Failed to load billing data")) w

unfoldable pub invoices_answered : ℕ → Fetched Usage → Fetched (Shape Invoice) → World → World
unfolding settle show_billing
invoices_answered t u f w = show_billing t (settle u) (settle f) w

unfoldable pub export_invoices : World → World
unfolding toast
export_invoices w = toast (lit "Invoice export feature coming soon") info w

-- The `name` of the organization in `state.orgs` whose `id` is `state.currentOrg`.
unfoldable pub current_org_name : State → Text
current_org_name s = elim (find (λ (o : Org). opt_eq (some o.id) s.current_org) s.orgs) [
  | none ↦ lit "Unknown"
  | some o ↦ or_text o.name (lit "Unknown")
]

unfoldable pub view_invoice : ℕ → World → World
unfolding modal current_org_name
view_invoice id w = modal (invoice_details id (escaped (current_org_name w.state))) w

unfoldable pub download_invoice : World → World
unfolding toast
download_invoice w = toast (lit "Invoice download feature coming soon") info w
