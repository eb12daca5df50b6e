-- ===== src/Pages/Orgs/Selected.antt =====
-- `renderOrgs` with a selected organization, up to its end.
use iaas_platform.Base.{ℕ, suc, ◌≡◌, none, some, List, arith, ◌==◌, find-eq-some}
use iaas_platform.Api.{Org, Shape, Response, success, failure, list_instances}
use iaas_platform.World.{World, detail_instances}
use iaas_platform.World.Ops.{call}
use iaas_platform.Pages.Orgs.{find_org, show_orgs, render_orgs_done, render_org_detail}

-- The page of an organization follows exactly if one is selected and the server still lists it, and
-- then it is the page of that organization.
pub show_orgs-found :
    (m id : ℕ) (l : List Org) (org : Org) (w : World)
    → w.state.current_org ≡ some (suc id)
    → find_org (suc id) l ≡ some org
    → (org.id ≡ suc id)
      × (show_orgs m l w ≡ call (list_instances (some (suc id))) (detail_instances org) w)
unfolding show_orgs render_org_detail
show_orgs-found m id l org w selected found =
    let same = find-eq-some (λ (o : Org). o.id == suc id) l org (unfold find_org in found) in
    (ground arith, ground (arith, same))

pub render_orgs_done-none :
    (n : ℕ) (r : Response (Shape Org)) (v : World)
    → v.state.current_org ≡ none
    → (render_orgs_done n r v).pending ≡ v.pending
unfolding render_orgs_done
render_orgs_done-none n (failure _ _) v h = ground arith
render_orgs_done-none n (success _ body) v h = ground arith
