-- ===== src/Pages/Orgs.antt =====
-- The rest of `renderOrgs`, `renderOrgDetail`, and the navigation between the pages, of
-- internal/dashboard/static/app.js.
pub mod Selected
use iaas_platform.Base.{ℕ, suc, zero, Option, none, some, List, [], map, length, keep, find, ◌==◌}
use iaas_platform.Base.Text.{lit}
use iaas_platform.Api.{
  Org, Instance, Member, Shape, Fetched, Response, success, failure, settle, as_array,
  list_instances, list_members,
}
use iaas_platform.Rows.{escaped, org_row, instance_row}
use iaas_platform.World.{
  World, View, settings, Page, shell, notice, orgs_page, detail_page, OrgDetail, instances_tab,
  instances, detail_instances, detail_members,
}
use iaas_platform.World.Ops.{get_main, set_main, call}
use iaas_platform.Pages.Frame.{is_running, is_stopped, render_orgs, render_view, render_settings}
use iaas_platform.Pages.Frame.{loaded_instances}

unfoldable pub render_org_detail : Org → World → World
unfolding call
render_org_detail org w = call (list_instances (some org.id)) (detail_instances org) w

unfoldable pub detail_instances_done : Org → Fetched (Shape Instance) → World → World
unfolding loaded_instances call
detail_instances_done org f w =
    let l = loaded_instances f in
    call (list_members (some org.id)) (detail_members org l)
      (record w { state = record (w.state) { instances = l } })

-- The answer's `ok` is not looked at; a failure's body holds no list.
unfoldable pub loaded_members : Fetched (Shape Member) → List Member
unfolding settle as_array
loaded_members f = elim (settle f) [ success _ v ↦ as_array v | failure _ _ ↦ [] ]

unfoldable pub org_detail : Org → List Instance → List Member → ℕ → OrgDetail
unfolding instance_row
org_detail org l members t = record {
  name = escaped org.name;
  slug = escaped org.slug;
  instance_count = length l;
  running = length (keep is_running l);
  stopped = length (keep is_stopped l);
  member_count = length members;
  active_tab = instances;
  tab_id = t;
  tab = instances_tab (map instance_row l);
}

-- `#main` is looked up only here; without it the function throws.
unfoldable pub detail_members_done : Org → List Instance → Fetched (Shape Member) → World → World
unfolding loaded_members org_detail set_main get_main
detail_members_done org l f w = elim (get_main w.page) [
  | none ↦ w
  | some m ↦
      set_main m (detail_page (org_detail org l (loaded_members f) w.fresh))
        (record w { fresh = suc w.fresh })
]

-- `state.orgs.find(o => o.id === id)`
unfoldable pub find_org : ℕ → List Org → Option Org
find_org id l = find (λ o. o.id == id) l

-- The test of `if (state.currentOrg)`: 0 is no organization.
unfoldable pub truthy_id : Option ℕ → Option ℕ
truthy_id none = none
truthy_id (some zero) = none
truthy_id (some (suc n)) = some (suc n)

-- The end of `renderOrgs`, with the new list in `state.orgs`.
unfoldable pub show_orgs : ℕ → List Org → World → World
unfolding truthy_id find_org render_orgs render_org_detail set_main org_row
show_orgs m l w = elim (truthy_id w.state.current_org) [
  | none ↦ set_main m (orgs_page (map (λ o. org_row o (lit "Open")) l)) w
  | some id ↦ elim (find_org id l) [
    | none ↦ render_orgs (record w { state = record (w.state) { current_org = none } })
    | some org ↦ render_org_detail org w
  ]
]

unfoldable pub render_orgs_done : ℕ → Response (Shape Org) → World → World
unfolding set_main as_array show_orgs
render_orgs_done m (failure _ _) w = set_main m (notice (lit "Failed to load")) w
render_orgs_done m (success _ body) w =
    show_orgs m (as_array body) (record w { state = record (w.state) { orgs = as_array body } })

-- `selectOrg`
unfoldable pub select_org : ℕ → World → World
unfolding render_orgs
select_org id w = render_orgs (record w { state = record (w.state) { current_org = some id } })

-- `backToOrgs`
unfoldable pub back_to_orgs : World → World
unfolding render_orgs
back_to_orgs w = render_orgs (record w { state = record (w.state) { current_org = none } })

-- The click handler of the links that `render` sets up.
unfoldable pub show_link : View → World → World
unfolding render_view
show_link v w = elim w.page [
  | shell s ↦ render_view (record w {
    page = shell (record s { active = some v });
    state = record (w.state) { view = v };
  })
  | _ ↦ w
]

abbrev unmark : Page → Page
unmark p = elim p [ shell s ↦ shell (record s { active = none }) | other ↦ other ]

-- `goToSettings`; without `#main`, `renderSettings` throws before the links are unmarked.
unfoldable pub go_to_settings : World → World
unfolding render_settings
go_to_settings w =
    let w' = render_settings (record w { state = record (w.state) { view = settings } }) in
    record w' { page = unmark w'.page }
