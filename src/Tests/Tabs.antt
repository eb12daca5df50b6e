-- ===== src/Tests/Tabs.antt =====
-- The tabs, the pages and the notification center at concrete data.
use iaas_platform.Base.{ℕ, ◌≡◌, refl, false, none, some, List, [], ◌∷◌, map}
use iaas_platform.Base.Text.{lit}
use iaas_platform.Api.{Usage, Invoice, Org, Shape, array, success}
use iaas_platform.World.{World, Notification, Kind}
use iaas_platform.Pages.Frame.{unread_count}
use iaas_platform.Pages.Center.{mark_read}
use iaas_platform.Pages.Orgs.{find_org}
use iaas_platform.EventLoop.Races.{detail_shell}
use iaas_platform.Tabs.Members.{viewer_is_admin}
use iaas_platform.Tabs.Billing.{average_cents}
use iaas_platform.Session.{init, initial}
use iaas_platform.Tests.Data.{start, acme, admin_ann, suspended_bob, frame, acme_page}

bob_is_no_admin : viewer_is_admin (some 8) (admin_ann ∷ suspended_bob ∷ []) ≡ false
unfolding viewer_is_admin lit
bob_is_no_admin = refl

abbrev invoice_of : ℕ → Invoice
invoice_of c = record {
  id = c;
  amount_cents = c;
  status = lit "paid";
  period_start = 0;
  period_end = 0;
  created_at = 0;
}

abbrev two_invoices : List Invoice
two_invoices = invoice_of 100 ∷ invoice_of 201 ∷ []

average_of_two : average_cents two_invoices ≡ 151
unfolding average_cents
average_of_two = refl

abbrev some_usage : Usage
some_usage = record { cpu_hours = 500; memory_gb_hours = 2000; disk_gb_hours = 0 }

abbrev note : ℕ → Notification
note n = record { id = n; msg = []; kind = Kind.success; is_read = false; timestamp = n }

abbrev ten : List Notification
ten = map note (1 ∷ 2 ∷ 3 ∷ 4 ∷ 5 ∷ 6 ∷ 7 ∷ 8 ∷ 9 ∷ 10 ∷ [])

three_left : unread_count (mark_read 2 (map note (1 ∷ 2 ∷ 3 ∷ 4 ∷ []))) ≡ 3
unfolding unread_count mark_read
three_left = refl

no_org : start.state.current_org ≡ none
unfolding init initial
no_org = refl

abbrev on_three : World
on_three = record start { state = record (start.state) { current_org = some 3 } }

acme_listed : find_org 3 (acme ∷ []) ≡ some acme
unfolding find_org
acme_listed = refl

abbrev no_orgs : Shape Org
no_orgs = array []

abbrev inside_three : World
inside_three = record on_three {
  state = record (on_three.state) { token = some (lit "t1") };
  page = detail_shell frame acme_page;
}
