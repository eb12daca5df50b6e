-- ===== src/Pages/Dashboard.antt =====
-- The rest of `renderDashboard` of internal/dashboard/static/app.js, after each `await`. A function
-- `x_done` is what goes on when the answer to `x` is there.
use iaas_platform.Base.{ℕ, ◌+◌, Option, none, some, List, [], ◌∷◌, map, length, keep}
use iaas_platform.Base.Text.{lit}
use iaas_platform.Api.{
  Org, Instance, Usage, Shape, Fetched, Response, success, failure, as_array, list_instances, usage,
  bearer,
}
use iaas_platform.Rows.{org_row}
use iaas_platform.World.{World, notice, dashboard_page, dashboard_instances, dashboard_usage}
use iaas_platform.World.Ops.{set_main, call}
use iaas_platform.Pages.Frame.{is_running}
use iaas_platform.Pages.Frame.{loaded_instances}

-- `instanceResults.forEach`
unfoldable pub count_all : List (List Instance) → ℕ
count_all [] = 0
count_all (is ∷ rest) = length is + count_all rest

unfoldable pub count_running : List (List Instance) → ℕ
count_running [] = 0
count_running (is ∷ rest) = length (keep is_running is) + count_running rest

-- The end of `renderDashboard`, from the current `state.orgs`.
unfoldable pub show_dashboard : ℕ → ℕ → ℕ → Option Usage → World → World
unfolding set_main org_row
show_dashboard m total run u w =
    set_main m
      (dashboard_page (record {
        org_count = length w.state.orgs;
        total_instances = total;
        running_instances = run;
        cpu_hours = elim u [ none ↦ none | some x ↦ some x.cpu_hours ];
        rows = map (λ o. org_row o (lit "Manage")) w.state.orgs;
      }))
      w

-- After the instances: the usage of the first organization is asked for, if there is one.
unfoldable pub ask_usage : ℕ → List (List Instance) → World → World
unfolding count_all count_running show_dashboard call
ask_usage m results w = elim w.state.orgs [
  | [] ↦ show_dashboard m (count_all results) (count_running results) none w
  | o ∷ _ ↦
      call (usage (some o.id)) (dashboard_usage m (count_all results) (count_running results)) w
]

-- `Promise.all` over the organizations; over none it goes on at once.
unfoldable pub ask_instances : ℕ → World → World
unfolding ask_usage bearer
ask_instances m w = elim w.state.orgs [
  | [] ↦ ask_usage m [] w
  | o ∷ os ↦ record w {
    pending =
        record {
          requests =
              map
                (λ (x : Org). record {
                  endpoint = list_instances (some x.id);
                  authorization = bearer w.state.token;
                })
                (o ∷ os);
          task = dashboard_instances m;
        }
        ∷ w.pending;
  }
]

unfoldable pub dashboard_orgs_done : ℕ → Response (Shape Org) → World → World
unfolding set_main as_array ask_instances
dashboard_orgs_done m (failure _ _) w = set_main m (notice (lit "Failed to load dashboard")) w
dashboard_orgs_done m (success _ body) w =
    ask_instances m (record w { state = record (w.state) { orgs = as_array body } })

unfoldable pub dashboard_instances_done : ℕ → List (Fetched (Shape Instance)) → World → World
unfolding loaded_instances ask_usage
dashboard_instances_done m fs w = ask_usage m (map loaded_instances fs) w

unfoldable pub dashboard_usage_done : ℕ → ℕ → ℕ → Response Usage → World → World
unfolding show_dashboard
dashboard_usage_done m total run (failure _ _) w = show_dashboard m total run none w
dashboard_usage_done m total run (success _ u) w = show_dashboard m total run (some u) w
