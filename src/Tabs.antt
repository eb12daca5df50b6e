-- ===== src/Tabs.antt =====
-- The tabs of an organization's page, of internal/dashboard/static/app.js, and `switchTab`.
pub mod Members
pub mod Billing
pub mod Webhooks
pub mod Audit
use iaas_platform.Base.{map}
use iaas_platform.Rows.{instance_row}
use iaas_platform.World.{
  State, World, Page, shell, MainContent, detail_page, TabContent, instances_tab, Tab, instances,
  members, billing, webhooks, audit,
}
use iaas_platform.World.Ops.{set_tab}
use Members.{render_members_tab}
use Billing.{render_billing_tab}
use Webhooks.{render_webhooks_tab}
use Audit.{render_audit_tab}

abbrev mark_tab : Tab → MainContent → MainContent
mark_tab t c = elim c [ detail_page d ↦ detail_page (record d { active_tab = t }) | other ↦ other ]

abbrev mark_tab_in : Tab → Page → Page
mark_tab_in t p = elim p [ shell s ↦ shell (record s { main = mark_tab t s.main }) | other ↦ other ]

abbrev put_instances : World → MainContent → MainContent
put_instances w c = elim c [
  | detail_page d ↦
      detail_page (record d { tab = instances_tab (map instance_row w.state.instances) })
  | other ↦ other
]

-- `main.innerHTML = renderInstancesTab(state.instances)`
unfoldable pub render_instances_tab : World → World
unfolding instance_row
render_instances_tab w = record w {
  page = elim w.page [
    | shell s ↦ shell (record s { main = put_instances w s.main })
    | other ↦ other
  ];
}

abbrev open_tab : Tab → World → World
open_tab instances w = render_instances_tab w
open_tab members w = render_members_tab w
open_tab billing w = render_billing_tab w
open_tab webhooks w = render_webhooks_tab w
open_tab audit w = render_audit_tab w

unfoldable pub switch_tab : Tab → World → World
unfolding render_instances_tab render_members_tab render_billing_tab render_webhooks_tab
    render_audit_tab
switch_tab t w = open_tab t (record w { page = mark_tab_in t w.page })
