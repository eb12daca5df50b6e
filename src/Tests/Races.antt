-- ===== src/Tests/Races.antt =====
-- Late answers and closed dialogs at concrete data.
use iaas_platform.Base.{◌≡◌, ◌⊎◌, refl, none}
use iaas_platform.Base.Text.{Text, lit}
use iaas_platform.Api.{Fetched, rejected, Member, Shape, settle, failure, success}
use iaas_platform.World.{World, billing, message, members_done, org_created}
use iaas_platform.Tabs.{switch_tab}
use iaas_platform.EventLoop.{resume}
use iaas_platform.EventLoop.Races.{
  detail_shell, Shown, Lost, members_done-after_switch, resume-Succeeds,
}
use iaas_platform.Tests.Data.{reply, start, frame, acme_page}

abbrev on_acme : World
on_acme = record start { page = detail_shell frame acme_page }

abbrev no_members : Fetched (Shape Member)
no_members = rejected

no_members-settle : settle no_members ≡ failure none (lit "Network error")
unfolding settle
no_members-settle = refl

members_done-after_switch_example :
    (resume (members_done 1) no_members (switch_tab billing on_acme)).page
    ≡ detail_shell frame
        (record acme_page { active_tab = billing; tab = message (lit "Failed to load members") })
members_done-after_switch_example =
    members_done-after_switch on_acme frame acme_page billing no_members none (lit "Network error")
      refl no_members-settle

created : settle (reply 201 tt) ≡ success 201 tt
unfolding settle
created = refl

abbrev success_text : Text
success_text = lit "✅ Organization created successfully"

-- The dialog was closed while the server created the organization.
resume-Succeeds_example :
    Shown success_text on_acme (resume (org_created (lit "Acme")) (reply 201 tt) on_acme)
    ⊎ Lost on_acme (resume (org_created (lit "Acme")) (reply 201 tt) on_acme)
resume-Succeeds_example =
    resume-Succeeds (org_created (lit "Acme")) (reply 201 tt) success_text on_acme
      ((201, created), refl)
