-- ===== src/Tests/Bills.antt =====
-- The invoices of the server on concrete tables, with quantities in thousandths.
use iaas_platform.Base.{ℕ, suc, ◌+◌, ◌*◌, ◌/◌, ◌%◌, ◌≡◌, refl, false, List, [], ◌∷◌, All, leb}
use iaas_platform.Server.Billing.{
  Float, Month, Books, Faults, Invoice, cpu_hours, disk_gb_hours, int64_range, record_usage,
  new_invoice, generate_invoice, get_invoice_line_items,
}
use iaas_platform.Server.Billing.Lines.{sum_of}
use iaas_platform.Server.Billing.Balance.{here, records, generates, lines_add_up}
use iaas_platform.Server.Billing.Twice.{billed_twice}

abbrev sum_all : List ℕ → ℕ
sum_all [] = 0
sum_all (x ∷ l) = x + sum_all l

abbrev thousandths : Float ℕ
thousandths = record {
  none_used = 0;
  at_most_zero = λ q. leb q 0;
  sum = sum_all;
  cents = λ q p. q * p / 1000;
}

-- Months of thirty days.
abbrev month : ℕ → Month
month t = record {
  period_start = t / 2592000000 * 2592000000;
  period_end = suc (t / 2592000000) * 2592000000;
}

abbrev no_faults : Faults
no_faults = record { record_usage = false; summary = false; invoice = false; line = λ n. false }

abbrev books : Books ℕ
books = record { usage = []; invoices = []; lines = []; next_invoice = 1; now = 2592001000 }

abbrev with_cpu : Books ℕ
with_cpu = (record_usage thousandths no_faults 1 1 cpu_hours 2500 books).0

abbrev with_disk : Books ℕ
with_disk = (record_usage thousandths no_faults 1 1 disk_gb_hours 9999 with_cpu).0

abbrev billed : Books ℕ
billed = (generate_invoice thousandths no_faults month 1 with_disk).0

lines_add_up_example :
    All
      (λ (i : Invoice).
        sum_of (get_invoice_line_items thousandths i.id billed) % int64_range ≡ i.amount_cents)
      billed.invoices
lines_add_up_example = lines_add_up thousandths month {w = books} {v = billed} refl refl (
    generates (records (records here no_faults 1 1 cpu_hours 2500) no_faults 1 1 disk_gb_hours 9999)
      no_faults 1 (λ n. refl))

billed_twice_example :
    (generate_invoice thousandths no_faults month 1
      (record (generate_invoice thousandths no_faults month 1 with_cpu).0 {
        now = 2592061000;
      })).0.invoices
    ≡ new_invoice thousandths month 1 with_cpu
      ∷ record (new_invoice thousandths month 1 with_cpu) { id = 2; created_at = 2592061000 }
      ∷ []
unfolding record_usage
billed_twice_example =
    billed_twice thousandths month no_faults no_faults 1 60000 with_cpu refl refl refl refl refl
