-- ===== src/EventLoop/Overview.antt =====
-- The dashboard and the page of an organization, from the first answer to the last.
use iaas_platform.Base.{
  ℕ, ◌+◌, ◌≤◌, ◌≡◌, refl, Option, none, some, List, [], ◌∷◌, map, keep, length, arith,
}
use iaas_platform.Base.Text.{lit}
use iaas_platform.Api.{
  Org, Instance, Usage, Member, Shape, Fetched, success, failure, settle, as_array,
}
use iaas_platform.Rows.{org_row}
use iaas_platform.World.{
  World, Shell, shell, dashboard_page, detail_page, dashboard_instances, dashboard_usage,
  detail_instances, detail_members,
}
use iaas_platform.Pages.Frame.{loaded_instances, is_running, is_stopped}
use iaas_platform.Pages.Dashboard.{count_all, count_running}
use iaas_platform.Pages.Orgs.{org_detail, loaded_members}
use iaas_platform.EventLoop.{resume}

-- The instances that were handed out; a request that failed stands for none.
abbrev pub handed_out : List (Fetched (Shape Instance)) → ℕ
handed_out [] = 0
handed_out (f ∷ fs) =
    elim (settle f) [ success _ v ↦ length (as_array v) | failure _ _ ↦ 0 ] + handed_out fs

count_all-loaded :
    (fs : List (Fetched (Shape Instance))) → count_all (map loaded_instances fs) ≡ handed_out fs
unfolding count_all loaded_instances
count_all-loaded [] = refl
count_all-loaded (f ∷ fs) = ground (arith, count_all-loaded fs)

running_le : (l : List Instance) → length (keep is_running l) ≤ length l
running_le [] = omega arith
running_le (x ∷ l) = ground (arith, running_le l)

count_running-le : (ls : List (List Instance)) → count_running ls ≤ count_all ls
unfolding count_running count_all
count_running-le [] = omega arith
count_running-le (l ∷ ls) = ground (arith, running_le l, count_running-le ls)

-- The CPU hours of an answer, or none where it failed.
abbrev pub hours_of : Fetched Usage → Option ℕ
hours_of f = elim (settle f) [ success _ u ↦ some u.cpu_hours | failure _ _ ↦ none ]

-- While its `#main` is shown, the dashboard appears whatever becomes of the requests for the
-- instances and for the usage: it counts the instances of the requests that worked, of which no
-- more are running than there are, and shows the CPU hours if they were handed out.
pub dashboard-shown :
    (fs : List (Fetched (Shape Instance))) (f : Fetched Usage) (s : Shell) (w : World)
    → w.page ≡ shell s
    → let ls = map loaded_instances fs in
      let v = resume (dashboard_instances s.main_id) fs w in
      ((resume (dashboard_usage s.main_id (count_all ls) (count_running ls)) f v).page
        ≡ shell (record s {
          main = dashboard_page (record {
            org_count = length w.state.orgs;
            total_instances = handed_out fs;
            running_instances = count_running ls;
            cpu_hours = hours_of f;
            rows = map (λ o. org_row o (lit "Manage")) w.state.orgs;
          });
        }))
      × (count_running ls ≤ handed_out fs)
unfolding resume
dashboard-shown fs f s w shown = (
  ground (arith, count_all-loaded fs),
  rw (← count_all-loaded fs) (count_running-le (map loaded_instances fs)),
)

running_stopped_le :
    (l : List Instance) → length (keep is_running l) + length (keep is_stopped l) ≤ length l
running_stopped_le [] = omega arith
running_stopped_le (x ∷ l) = ground (arith, running_stopped_le l)

-- The page of an organization appears whatever becomes of the two requests that it waits for, with
-- what they handed out; the instances that it counts as running and as stopped are not more than
-- all of them.
pub org_detail-shown :
    (org : Org) (f : Fetched (Shape Instance)) (g : Fetched (Shape Member)) (s : Shell) (w : World)
    → w.page ≡ shell s
    → let l = loaded_instances f in
      let d = org_detail org l (loaded_members g) w.fresh in
      ((resume (detail_members org l) g (resume (detail_instances org) f w)).page
        ≡ shell (record s { main = detail_page d }))
      × (d.running + d.stopped ≤ d.instance_count)
unfolding resume org_detail
org_detail-shown org f g s w shown = (ground arith, running_stopped_le (loaded_instances f))
