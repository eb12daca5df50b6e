-- ===== src/World.antt =====
-- The state of the page that internal/dashboard/static/app.js runs in: the variable `state`,
-- `localStorage`, the parts of the document that the script writes, the timers, and the calls of
-- `api` that wait for an answer. Types only; the operations stand in World/Ops.antt.
--
-- A handler is a function of type World → World. Where the source awaits `api`, the handler leaves
-- a `Pending` behind: the requests, and a `Task` that names the place where it goes on and holds
-- the local variables that are used there. EventLoop.antt runs a task when its answers arrive, so the
-- handlers interleave as on the event loop. A handler that throws stops where it is.
--
-- An element that the script keeps a reference to has a number; what is written to an element that
-- is no longer in the document is lost, as in the browser.
pub mod Ops
use iaas_platform.Base.{ℕ, Bool, Option, List}
use iaas_platform.Base.Text.{Text, ℤ}
use iaas_platform.Api.{
  User, Org, Instance, Member, JoinRequest, Usage, Invoice, Webhook, AuditEvent, AuthBody, Shape,
  Fetched, Action, Endpoint, Status,
}
use iaas_platform.Rows.{Markup, OrgRow, MemberRow, InstanceRow, InvoiceRow, WebhookRow, Call, Color}

pub data View : Type 0 where
  dashboard orgs settings : View

pub record Settings : Type 0 where
  pub theme : Text
  pub email_notifications : Bool
  pub auto_refresh : Bool

-- The second argument of `toast`.
pub data Kind : Type 0 where
  success error info : Kind

-- `is_read` is the field `read`, absent at first.
pub record Notification : Type 0 where
  pub id : ℕ
  pub msg : Text
  pub kind : Kind
  pub timestamp : ℕ
  pub is_read : Bool

pub record LogEntry : Type 0 where
  pub id : ℕ
  pub action : Text
  pub details : Text
  pub timestamp : ℕ
  pub user : Text

-- `let state`; its `currentInstance` is never read or written.
pub record State : Type 0 where
  pub token : Option Text
  pub user : Option User
  pub orgs : List Org
  pub instances : List Instance
  pub current_org : Option ℕ
  pub view : View
  pub notifications : List Notification
  pub activity_log : List LogEntry
  pub settings : Settings

-- `localStorage`; the two switches are stored as the JSON of a Boolean.
pub record Storage : Type 0 where
  pub token : Option Text
  pub theme : Option Text
  pub email_notifications : Option Bool
  pub auto_refresh : Option Bool

pub data Tab : Type 0 where
  instances members billing webhooks audit : Tab

-- One line of the banner "Suspension ending soon", with its button "Lift suspension".
pub record BannerRow : Type 0 where
  pub name : Markup
  pub days : ℕ
  pub email : Markup
  pub click : Call

-- A join request, with its buttons Accept and Revoke for `user_id`.
pub record RequestRow : Type 0 where
  pub name : Markup
  pub email : Markup
  pub created : ℕ
  pub user_id : ℕ

-- The headings and the button "+ Invite" follow `is_admin`.
pub record MembersTab : Type 0 where
  pub banner : List BannerRow
  pub requests : List RequestRow
  pub is_admin : Bool
  pub rows : List MemberRow

-- A fraction `num / den`.
pub record Fraction : Type 0 where
  pub num : ℕ
  pub den : ℕ

-- The average is in cents, the usage in thousandths of an hour, the bars in percent.
pub record BillingTab : Type 0 where
  pub average : ℕ
  pub invoice_count : ℕ
  pub usage : Usage
  pub cpu_bar : Fraction
  pub memory_bar : Fraction
  pub disk_bar : Fraction
  pub rows : List InvoiceRow

pub data TabContent : Type 0 where
  message : Text → TabContent
  instances_tab : List InstanceRow → TabContent
  members_tab : MembersTab → TabContent
  billing_tab : BillingTab → TabContent
  webhooks_tab : List WebhookRow → TabContent
  audit_tab : Text → TabContent

pub record OrgDetail : Type 0 where
  pub name : Markup
  pub slug : Markup
  pub instance_count : ℕ
  pub running : ℕ
  pub stopped : ℕ
  pub member_count : ℕ
  pub active_tab : Tab
  pub tab_id : ℕ
  pub tab : TabContent

-- `cpu_hours` is `none` where no usage was loaded.
pub record Dashboard : Type 0 where
  pub org_count : ℕ
  pub total_instances : ℕ
  pub running_instances : ℕ
  pub cpu_hours : Option ℕ
  pub rows : List OrgRow

pub record SettingsPage : Type 0 where
  pub email : Markup
  pub email_notifications : Bool
  pub auto_refresh : Bool
  pub activity : List LogEntry

pub data MainContent : Type 0 where
  blank : MainContent
  notice : Text → MainContent
  dashboard_page : Dashboard → MainContent
  orgs_page : List OrgRow → MainContent
  detail_page : OrgDetail → MainContent
  settings_page : SettingsPage → MainContent

-- The notification center: `style.display === 'block'`, and the items that were rendered last.
pub record Center : Type 0 where
  pub is_open : Bool
  pub items : List Notification

-- What `render` puts into `#app` for a user with a token; `main_id` is the element `#main`.
pub record Shell : Type 0 where
  pub user_badge : Text
  pub unread : ℕ
  pub active : Option View
  pub center : Center
  pub main_id : ℕ
  pub main : MainContent

pub data LoginForm : Type 0 where
  sign_in forgot forgot_sent sign_up_form : LoginForm

pub data Page : Type 0 where
  nothing : Page
  login_page : LoginForm → Page
  reset_page : Page
  shell : Shell → Page

-- The fields of the form of `showCreateInstance` that the script itself changes or reads; the cost
-- is in cents.
pub record InstanceForm : Type 0 where
  pub instance_type : Text
  pub preset : Text
  pub cpu : Text
  pub memory : Text
  pub disk : Text
  pub cost : ℕ

-- What `showInstanceDetail` shows.
pub record InstanceDetails : Type 0 where
  pub id : ℕ
  pub name : Markup
  pub status : Status
  pub class : Color
  pub instance_type : Markup
  pub region : Markup
  pub cpu_cores : ℕ
  pub memory_mb : ℕ
  pub disk_gb : ℕ
  pub ip_address : Markup
  pub image : Markup
  pub provider_id : Markup
  pub created : ℕ
  pub buttons : List Call

pub data Modal : Type 0 where
  confirm_action_modal : Action → ℕ → Modal
  instance_details : InstanceDetails → Modal
  remove_member_modal suspend_form webhook_delete_modal : ℕ → Modal
  invoice_details : ℕ → Markup → Modal
  webhook_form : List Text → Modal
  org_form invite_form password_form : Modal
  instance_form : InstanceForm → Modal
  delete_account_form : Option Text → Modal

pub record Overlay : Type 0 where
  pub element : ℕ
  pub modal : Modal

pub record Toast : Type 0 where
  pub element : ℕ
  pub id : ℕ
  pub msg : Markup
  pub kind : Kind

pub data Job : Type 0 where
  remove_toast : ℕ → Job
  refresh_detail : Job

pub record Timer : Type 0 where
  pub due : ℕ
  pub job : Job

-- The places after an `await api(…)`, with the variables that are used from there on. A first
-- number is the element that the handler holds, `#main` or `#tab-content`.
pub data Task : Type 0 where
  forgot_done reset_done log_in_done sign_up_done me_done : Task
  dashboard_orgs dashboard_instances : ℕ → Task
  dashboard_usage : ℕ → ℕ → ℕ → Task
  orgs_done : ℕ → Task
  detail_instances : Org → Task
  detail_members : Org → List Instance → Task
  members_done : ℕ → Task
  members_requests : ℕ → List Member → Option ℕ → List BannerRow → Task
  join_accepted join_revoked member_removed : Task
  member_suspended : ℕ → ℕ → Task
  member_unsuspended : ℕ → Task
  member_invited : Text → Text → Task
  billing_usage : ℕ → Task
  billing_invoices : ℕ → Fetched Usage → Task
  webhooks_done : ℕ → Task
  webhook_created webhook_tested webhook_deleted : Task
  webhook_toggled : Bool → Task
  audit_done : ℕ → Text → Task
  org_created : Text → Task
  instance_created : Text → ℤ → ℤ → Task
  action_done : Action → ℕ → Task

-- What the answer to a task's request decodes to.
abbrev pub Reply : Task → Type 0
Reply log_in_done = Fetched AuthBody
Reply sign_up_done = Fetched AuthBody
Reply me_done = Fetched User
Reply (dashboard_orgs _) = Fetched (Shape Org)
Reply (dashboard_instances _) = List (Fetched (Shape Instance))
Reply (dashboard_usage _ _ _) = Fetched Usage
Reply (orgs_done _) = Fetched (Shape Org)
Reply (detail_instances _) = Fetched (Shape Instance)
Reply (detail_members _ _) = Fetched (Shape Member)
Reply (members_done _) = Fetched (Shape Member)
Reply (members_requests _ _ _ _) = Fetched (Shape JoinRequest)
Reply (billing_usage _) = Fetched Usage
Reply (billing_invoices _ _) = Fetched (Shape Invoice)
Reply (webhooks_done _) = Fetched (Shape Webhook)
Reply (audit_done _ _) = Fetched (Shape AuditEvent)
Reply _ = Fetched (Unit {0})

pub record Request : Type 0 where
  pub endpoint : Endpoint
  pub authorization : Option Text

-- Several requests stand for a `Promise.all`.
pub record Pending : Type 0 where
  pub requests : List Request
  pub task : Task

-- `fresh` is the number of the next element, `now` is `Date.now()`, `reset_token` is
-- `window.__resetToken`.
pub record World : Type 0 where
  pub state : State
  pub storage : Storage
  pub page : Page
  pub toasts : List Toast
  pub overlays : List Overlay
  pub timers : List Timer
  pub pending : List Pending
  pub fresh : ℕ
  pub now : ℕ
  pub reset_token : Option Text
