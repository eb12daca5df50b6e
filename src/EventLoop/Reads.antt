-- ===== src/EventLoop/Reads.antt =====
-- What follows a list that the server does not hand out, where the code reports it: for the dashboard,
-- the organizations, and the tabs Members, Billing, Webhooks and Audit.
use iaas_platform.Base.{ℕ, ◌≡◌, ◌⊎◌, Option, none, some, if◌then◌else◌, arith, ◌==◌}
use iaas_platform.Base.Text.{Text, lit}
use iaas_platform.Api.{Fetched, failure, settle}
use iaas_platform.World.{
  World, Page, Task, Reply, notice, message, dashboard_orgs, orgs_done, members_done,
  billing_invoices, webhooks_done, audit_done,
}
use iaas_platform.World.Ops.{put_main, put_tab}
use iaas_platform.EventLoop.{resume}

-- The server's word for a status of 403, or the other text.
abbrev pub forbidden_or : Option ℕ → Text → Text → Text
forbidden_or none forbidden other = other
forbidden_or (some status) forbidden other = if status == 403 then forbidden else other

-- What the page shows for a list that failed, by the place that asked for it.
abbrev pub failed_page : Task → Option ℕ → Page → Page
failed_page (dashboard_orgs m) status = put_main m (notice (lit "Failed to load dashboard"))
failed_page (orgs_done m) status = put_main m (notice (lit "Failed to load"))
failed_page (members_done t) status = put_tab t (message (lit "Failed to load members"))
failed_page (billing_invoices t _) status = put_tab t (message (lit "Failed to load billing data"))
failed_page (webhooks_done t) status = put_tab t (
    message (
      forbidden_or status (lit "Only admins can manage webhooks.") (lit "Failed to load webhooks")))
failed_page (audit_done t _) status = put_tab t (
    message (
      forbidden_or status (lit "You do not have access to the audit trail.")
        (lit "Failed to load audit trail")))
failed_page _ status = λ p. p

abbrev Refused : {A : Type 0} → Fetched A → Option ℕ → Type 0
Refused f status = (e : Text) × (settle f ≡ failure status e)

-- The answer for a list comes to a failure; the tab Billing needs both of its answers.
abbrev pub ReadFails : (t : Task) → Reply t → Option ℕ → Type 0
ReadFails (dashboard_orgs _) f status = Refused f status
ReadFails (orgs_done _) f status = Refused f status
ReadFails (members_done _) f status = Refused f status
ReadFails (billing_invoices _ u) f status = Refused u status ⊎ Refused f status
ReadFails (webhooks_done _) f status = Refused f status
ReadFails (audit_done _ _) f status = Refused f status
ReadFails _ f status = ⊥

-- Where the organizations, for the dashboard or their own page, or the members, the billing data, the
-- webhooks or the audit trail of a tab cannot be had, nothing changes but the element that was
-- waiting for them, which says so, and for the last two says whether it was forbidden.
pub resume-ReadFails :
    (t : Task) (f : Reply t) (status : Option ℕ) (w : World)
    → ReadFails t f status
    → resume t f w ≡ record w { page = failed_page t status w.page }
unfolding resume
resume-ReadFails (dashboard_orgs m) f status w (e, h) = ground arith
resume-ReadFails (orgs_done m) f status w (e, h) = ground arith
resume-ReadFails (members_done t) f status w (e, h) = ground arith
resume-ReadFails (billing_invoices t u) f status w h = ground arith
resume-ReadFails (webhooks_done t) f status w (e, h) = ground arith
resume-ReadFails (audit_done t a) f status w (e, h) = ground arith
resume-ReadFails _ f status w h = elim h [ ]
