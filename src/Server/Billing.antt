-- ===== src/Server/Billing.antt =====
-- `Service` of internal/billing/service.go over the tables of internal/database/billing.go. The
-- arithmetic of float64 and the calendar are parameters; times are in milliseconds. The `id` of an
-- invoice is its primary key, the one of a line or of a usage record is left out, and so are the
-- currency and the status of an invoice, which are always "usd" and "pending". Which calls of the
-- database fail is given by `Faults`.
pub mod Lines
pub mod Balance
pub mod Twice
use iaas_platform.Base.{
  ℕ, zero, suc, ◌+◌, ◌-◌, ◌%◌, Bool, true, false, ◌&&◌, Option, none, some, List, [], ◌∷◌, ◌++◌,
  map, keep, leb, ◌==◌, if◌then◌else◌,
}
use iaas_platform.Base.Text.{Text, lit, text_eq}
use iaas_platform.Server.{Lookup, found, missing, broken}

-- float64, where a quantity is read: `<= 0`, `SUM` of the database, and the 64 bits of
-- `int64(q * float64(price))`.
pub record Float (Q : Type 0) : Type 0 where
  pub none_used : Q
  pub at_most_zero : Q → Bool
  pub sum : List Q → Q
  pub cents : Q → ℕ → ℕ

-- The first instants of the month of a time and of the month after it.
pub record Month : Type 0 where
  pub period_start : ℕ
  pub period_end : ℕ

pub record UsageRecord (Q : Type 0) : Type 0 where
  pub organization_id : ℕ
  pub instance_id : ℕ
  pub resource_type : Text
  pub quantity : Q
  pub recorded_at : ℕ

pub record UsageSummary (Q : Type 0) : Type 0 where
  pub cpu_hours : Q
  pub memory_gb_hours : Q
  pub disk_gb_hours : Q

pub record Invoice : Type 0 where
  pub id : ℕ
  pub organization_id : ℕ
  pub amount_cents : ℕ
  pub month : Month
  pub created_at : ℕ

pub record InvoiceLineItem (Q : Type 0) : Type 0 where
  pub invoice_id : ℕ
  pub description : Text
  pub resource_type : Text
  pub quantity : Q
  pub unit_price_cents : ℕ
  pub amount_cents : ℕ

pub record Books (Q : Type 0) : Type 0 where
  pub usage : List (UsageRecord Q)
  pub invoices : List Invoice
  pub lines : List (InvoiceLineItem Q)
  pub next_invoice : ℕ
  pub now : ℕ

-- The calls that fail; a line by its place among the three items.
pub record Faults : Type 0 where
  pub record_usage : Bool
  pub summary : Bool
  pub invoice : Bool
  pub line : ℕ → Bool

pub data Error : Type 0 where
  not_in_org bad_usage bad_quantity internal : Error

pub data Result (A : Type 0) : Type 0 where
  ok : A → Result A
  refused : Error → Result A

abbrev pub cpu_hours : Text
cpu_hours = lit "cpu_hours"

abbrev pub memory_gb_hours : Text
memory_gb_hours = lit "memory_gb_hours"

abbrev pub disk_gb_hours : Text
disk_gb_hours = lit "disk_gb_hours"

-- `unitPrices`
unfoldable pub unit_prices : Text → Option ℕ
unfolding text_eq lit
unit_prices t =
    if text_eq t cpu_hours
    then some 50
    else if text_eq t memory_gb_hours
    then some 20
    else if text_eq t disk_gb_hours
    then some 1
    else none

-- `unitPrices[t]`, which is 0 for another type.
unfoldable pub unit_price : Text → ℕ
unfolding unit_prices
unit_price t = elim (unit_prices t) [ none ↦ 0 | some n ↦ n ]

abbrev pub int64_range : ℕ
int64_range = 18446744073709551616

module _ {Q : Type 0} (float : Float Q) where
  -- The records of a resource type since a time, summed; without any, 0.
  unfoldable pub used : ℕ → Text → ℕ → List (UsageRecord Q) → Q
  unfolding text_eq
  used org t since l =
      elim (keep
        (λ (u : UsageRecord Q).
          u.organization_id == org && (leb since u.recorded_at && text_eq u.resource_type t))
        l) [
          | [] ↦ float.none_used
          | u ∷ k ↦ float.sum (map (λ (u : UsageRecord Q). u.quantity) (u ∷ k))
        ]

  -- `GetSummary`
  unfoldable pub get_summary : ℕ → ℕ → List (UsageRecord Q) → UsageSummary Q
  unfolding used
  get_summary org since l = record {
    cpu_hours = used org cpu_hours since l;
    memory_gb_hours = used org memory_gb_hours since l;
    disk_gb_hours = used org disk_gb_hours since l;
  }

  -- `RecordUsage`
  unfoldable pub record_usage : Faults → ℕ → ℕ → Text → Q → Books Q → Books Q × Result (Unit {0})
  unfolding unit_prices
  record_usage f org instance_id t q w = elim (unit_prices t) [
    | none ↦ (w, refused bad_usage)
    | some n ↦
        if float.at_most_zero q
        then (w, refused bad_quantity)
        else if f.record_usage
        then (w, refused internal)
        else (
          record w {
            usage =
                w.usage
                ++ (record {
                  organization_id = org;
                  instance_id = instance_id;
                  resource_type = t;
                  quantity = q;
                  recorded_at = w.now;
                }
                    ∷ []);
          },
          ok tt,
        )
  ]

  -- `GetUsage`: the last thirty days, or all records where fewer days have passed since time 0.
  unfoldable pub get_usage : Faults → Lookup (Unit {0}) → ℕ → Books Q → Result (UsageSummary Q)
  unfolding get_summary
  get_usage f missing org w = refused not_in_org
  get_usage f broken org w = refused internal
  get_usage f (found x) org w =
      if f.summary then refused internal else ok (get_summary org (w.now - 2592000000) w.usage)

  pub record Item : Type 0 where
    pub rt : Text
    pub qty : Q
    pub desc : Text

  -- `items`
  abbrev pub items_of : UsageSummary Q → List Item
  items_of s =
      record { rt = cpu_hours; qty = s.cpu_hours; desc = lit "CPU Hours" }
      ∷ record { rt = memory_gb_hours; qty = s.memory_gb_hours; desc = lit "Memory GB-hours" }
      ∷ record { rt = disk_gb_hours; qty = s.disk_gb_hours; desc = lit "Disk GB-hours" }
      ∷ []

  abbrev pub amount : Item → ℕ
  unfolding unit_price
  amount x = float.cents x.qty (unit_price x.rt)

  -- `totalCents`, which wraps as an `int64` does.
  unfoldable pub total_from : ℕ → List Item → ℕ
  unfolding unit_price
  total_from sum [] = sum
  total_from sum (x ∷ l) =
      let skipped = total_from sum l in
      let added = total_from ((sum + amount x) % int64_range) l in
      if float.at_most_zero x.qty then skipped else added

  abbrev pub line_of : ℕ → Item → InvoiceLineItem Q
  unfolding unit_price
  line_of id x = record {
    invoice_id = id;
    description = x.desc;
    resource_type = x.rt;
    quantity = x.qty;
    unit_price_cents = unit_price x.rt;
    amount_cents = amount x;
  }

  -- The lines of the items from the `n`th on, and whether all could be added.
  unfoldable pub add_lines :
      (ℕ → Bool) → ℕ → ℕ → List Item → List (InvoiceLineItem Q) → List (InvoiceLineItem Q) × Bool
  unfolding unit_price
  add_lines fails id n [] lines = (lines, true)
  add_lines fails id n (x ∷ l) lines =
      let skipped = add_lines fails id (suc n) l lines in
      let added = add_lines fails id (suc n) l (lines ++ (line_of id x ∷ [])) in
      if float.at_most_zero x.qty then skipped else if fails n then (lines, false) else added

  unfoldable pub new_invoice : (ℕ → Month) → ℕ → Books Q → Invoice
  unfolding get_summary total_from
  new_invoice month org w = record {
    id = w.next_invoice;
    organization_id = org;
    amount_cents = total_from 0 (items_of (get_summary org (month w.now).period_start w.usage));
    month = month w.now;
    created_at = w.now;
  }

  -- `GenerateInvoice`
  unfoldable pub generate_invoice : Faults → (ℕ → Month) → ℕ → Books Q → Books Q × Result Invoice
  unfolding get_summary new_invoice add_lines
  generate_invoice f month org w =
      let inv = new_invoice month org w in
      let (lines, complete) =
        add_lines f.line inv.id 0 (items_of (get_summary org (month w.now).period_start w.usage))
          w.lines in
      if f.summary then (w, refused internal) else if f.invoice then (w, refused internal) else (
        record w {
          invoices = w.invoices ++ (inv ∷ []);
          lines = lines;
          next_invoice = suc w.next_invoice;
        },
        if complete then ok inv else refused internal,
      )

  -- `GetInvoiceLineItems`
  unfoldable pub get_invoice_line_items : ℕ → Books Q → List (InvoiceLineItem Q)
  get_invoice_line_items id w = keep (λ (l : InvoiceLineItem Q). l.invoice_id == id) w.lines
