-- ===== src/Session.antt =====
-- Signing in and out, of internal/dashboard/static/app.js: `init`, `login`, `signup`, `logout`, the
-- password reset, and the forms of the account. The values of the form's inputs are arguments.
pub mod Forms
use iaas_platform.Base.{
  ℕ, Bool, true, false, not, ◌&&◌, ◌||◌, Option, none, some, List, [], ◌∷◌, length, ltb,
  if◌then◌else◌,
}
use iaas_platform.Base.Text.{Text, lit, text_eq, is_empty, or_text, trim}
use iaas_platform.Api.{
  User, AuthBody, Response, success, failure, forgot_password, reset_password, log_in, sign_up, me,
  bearer,
}
use iaas_platform.World.{
  State, World, Storage, Settings, View, dashboard, Kind, error, info, Page, nothing, login_page,
  reset_page, shell, LoginForm, forgot, forgot_sent, sign_up_form, forgot_done, reset_done,
  log_in_done, sign_up_done, me_done,
}
use iaas_platform.World.Ops.{call, toast}
use iaas_platform.Pages.Frame.{render}

abbrev or_true : Option Bool → Bool
or_true none = true
or_true (some b) = b

abbrev or_dark : Option Text → Text
or_dark none = lit "dark"
or_dark (some t) = or_text t (lit "dark")

-- `let state` when the script is loaded, over what is stored.
unfoldable pub initial_state : Storage → State
initial_state s = record {
  token = s.token;
  user = none;
  orgs = [];
  instances = [];
  current_org = none;
  view = dashboard;
  notifications = [];
  activity_log = [];
  settings = record {
    theme = or_dark s.theme;
    email_notifications = or_true s.email_notifications;
    auto_refresh = or_true s.auto_refresh;
  };
}

unfoldable pub initial : Storage → ℕ → World
unfolding initial_state
initial s now = record {
  state = initial_state s;
  storage = s;
  page = nothing;
  toasts = [];
  overlays = [];
  timers = [];
  pending = [];
  fresh = 0;
  now = now;
  reset_token = none;
}

-- `renderResetPassword`
unfoldable pub render_reset_password : Text → World → World
render_reset_password t w = record w { page = reset_page; reset_token = some t }

abbrev ask_me : World → World
ask_me w = elim (bearer w.state.token) [ none ↦ render w | some _ ↦ call me me_done w ]

-- `init`, with the parameter `reset_token` of the address.
unfoldable pub init : Option Text → World → World
unfolding render_reset_password bearer call render
init none w = ask_me w
init (some t) w = if is_empty t then ask_me w else render_reset_password t w

unfoldable pub me_answered : Response User → World → World
unfolding render
me_answered (success _ u) w = render (record w { state = record (w.state) { user = some u } })
me_answered (failure _ _) w = render (record w {
  state = record (w.state) { token = none };
  storage = record (w.storage) { token = none };
})

-- `showForgotPassword` and `showSignup`: they throw where there is no login form.
unfoldable pub show_login_form : LoginForm → World → World
show_login_form f w = record w {
  page = elim w.page [ login_page _ ↦ login_page f | other ↦ other ];
}

unfoldable pub forgot_password_clicked : Text → World → World
unfolding toast call
forgot_password_clicked email w =
    if is_empty email
    then toast (lit "Enter your email") error w
    else call (forgot_password email) forgot_done w

unfoldable pub forgot_answered : Response (Unit {0}) → World → World
unfolding toast show_login_form
forgot_answered (failure _ e) w = toast (or_text e (lit "Request failed")) error w
forgot_answered (success _ _) w = show_login_form forgot_sent w

unfoldable pub reset_password_clicked : Text → Text → World → World
unfolding toast call
reset_password_clicked password confirm w =
    if is_empty password || is_empty confirm
    then toast (lit "Fill in both fields") error w
    else if not (text_eq password confirm)
    then toast (lit "Passwords do not match") error w
    else if ltb (length password) 8
    then toast (lit "Password must be at least 8 characters") error w
    else call (reset_password w.reset_token password) reset_done w

unfoldable pub reset_answered : Response (Unit {0}) → World → World
unfolding toast render
reset_answered (failure _ e) w = toast (or_text e (lit "Reset failed")) error w
reset_answered (success _ _) w =
    toast (lit "Password updated. Sign in with your new password.") Kind.success
      (render (record w { reset_token = none }))

unfoldable pub log_in_clicked : Text → Text → World → World
unfolding toast call
log_in_clicked email password w =
    if is_empty email || is_empty password
    then toast (lit "Fill in all fields") error w
    else call (log_in email password) log_in_done w

-- `localStorage.setItem` stores a missing token as the text "undefined".
abbrev stored_token : Option Text → Option Text
stored_token none = some (lit "undefined")
stored_token (some t) = some t

-- What both answers do with the session that they open.
unfoldable pub open_session : AuthBody → World → World
unfolding render
open_session b w = render (record w {
  state = record (w.state) { token = b.token; user = b.user };
  storage = record (w.storage) { token = stored_token b.token };
})

unfoldable pub log_in_answered : Response AuthBody → World → World
unfolding toast open_session
log_in_answered (failure _ e) w = toast (or_text e (lit "Login failed")) error w
log_in_answered (success _ b) w = open_session b w

-- `org_slug` is sent only if it is not empty.
abbrev slug_field : Text → Option Text
slug_field t = if is_empty t then none else some t

unfoldable pub sign_up_clicked : Text → Text → Text → Text → World → World
unfolding toast call trim
sign_up_clicked name email password org_slug w =
    if is_empty name || is_empty email || is_empty password
    then toast (lit "Fill in all fields") error w
    else call (sign_up name email password (slug_field (trim org_slug))) sign_up_done w

unfoldable pub sign_up_answered : Response AuthBody → World → World
unfolding toast open_session
sign_up_answered (failure _ e) w = toast (or_text e (lit "Signup failed")) error w
sign_up_answered (success _ b) w =
    if b.org_join_pending
    then toast (lit "Account created. The organization admin must approve your request.") info
        (open_session b w)
    else open_session b w

unfoldable pub logout : World → World
unfolding render
logout w = render (record w {
  state = record (w.state) { token = none; user = none };
  storage = record (w.storage) { token = none };
})
