-- ===== src/Pages/Frame.antt =====
-- `render`, `renderView` and what they call at once, of internal/dashboard/static/app.js: the
-- login page, the header, the settings, and the first halves of the dashboard and the list of
-- organizations, up to their `await`.
use iaas_platform.Base.{
  ℕ, suc, Bool, true, false, not, Option, none, some, List, [], length, take, keep,
}
use iaas_platform.Base.Text.{Text, lit}
use iaas_platform.Api.{
  User, Instance, running, stopped, Shape, Fetched, success, failure, settle, as_array, list_orgs,
  bearer,
}
use iaas_platform.Rows.{escaped}
use iaas_platform.World.{
  State, World, View, dashboard, orgs, settings, Notification, login_page, shell, sign_in, Shell,
  MainContent, blank, notice, settings_page, dashboard_orgs, orgs_done,
}
use iaas_platform.World.Ops.{get_main, set_main, call}

abbrev pub is_running : Instance → Bool
is_running i = elim i.status [ running ↦ true | _ ↦ false ]

abbrev pub is_stopped : Instance → Bool
is_stopped i = elim i.status [ stopped ↦ true | _ ↦ false ]

abbrev pub loading : MainContent
loading = notice (lit "Loading...")

abbrev email_of : Option User → Text
email_of none = []
email_of (some u) = u.email

-- `renderSettings`, but for its static forms: `#main` shows the address, the two switches and the
-- first twenty entries of the activity log.
unfoldable pub settings_content : State → MainContent
settings_content s = settings_page (record {
  email = escaped (email_of s.user);
  email_notifications = s.settings.email_notifications;
  auto_refresh = s.settings.auto_refresh;
  activity = take 20 s.activity_log;
})

-- Without `#main` the assignment throws.
unfoldable pub render_settings : World → World
unfolding get_main set_main settings_content
render_settings w = elim (get_main w.page) [
  | none ↦ w
  | some m ↦ set_main m (settings_content w.state) w
]

unfoldable pub render_dashboard : World → World
unfolding get_main set_main call
render_dashboard w = elim (get_main w.page) [
  | none ↦ w
  | some m ↦ call list_orgs (dashboard_orgs m) (set_main m loading w)
]

unfoldable pub render_orgs : World → World
unfolding get_main set_main call
render_orgs w = elim (get_main w.page) [
  | none ↦ w
  | some m ↦ call list_orgs (orgs_done m) (set_main m loading w)
]

abbrev pub show_view : View → World → World
show_view dashboard w = render_dashboard w
show_view orgs w = render_orgs w
show_view settings w = render_settings w

unfoldable pub render_view : World → World
unfolding render_dashboard render_orgs render_settings
render_view w = show_view w.state.view w

-- `renderLogin`
unfoldable pub render_login : World → World
render_login w = record w { page = login_page sign_in }

unfoldable pub unread_count : List Notification → ℕ
unread_count l = length (keep (λ n. not n.is_read) l)

-- A new header and a new, empty `#main`; the link Dashboard is marked active.
unfoldable pub new_shell : State → ℕ → Shell
unfolding unread_count
new_shell s m = record {
  user_badge = email_of s.user;
  unread = unread_count s.notifications;
  active = some dashboard;
  center = record { is_open = false; items = [] };
  main_id = m;
  main = blank;
}

unfoldable pub render : World → World
unfolding bearer render_login new_shell render_view
render w = elim (bearer w.state.token) [
  | none ↦ render_login w
  | some _ ↦
      render_view (record w { page = shell (new_shell w.state w.fresh); fresh = suc w.fresh })
]

-- The instances of one organization, or none where the request failed.
unfoldable pub loaded_instances : Fetched (Shape Instance) → List Instance
unfolding settle as_array
loaded_instances f = elim (settle f) [ success _ v ↦ as_array v | failure _ _ ↦ [] ]
