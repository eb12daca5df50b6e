-- ===== src/EventLoop.antt =====
-- The event loop that internal/dashboard/static/app.js runs in: what a task does when its answers
-- are there, what the user can start, and the steps of the page between the two.
pub mod Log
pub mod Session
pub mod Elements
pub mod Failures
pub mod Races
pub mod Requests
pub mod Toasts
pub mod Successes
pub mod Reads
pub mod Overview
pub mod Actions
pub mod SignedOut
pub mod Unlisted
use iaas_platform.Base.{
  ℕ, ◌+◌, ◌≤◌, ◌≡◌, Bool, not, Option, none, some, List, [], ◌∷◌, ◌++◌, keep, leb, ◌==◌,
  if◌then◌else◌,
}
use iaas_platform.Base.Text.{Text}
use iaas_platform.Api.{settle, Action}
use iaas_platform.World.{
  World, Task, Reply, Pending, Tab, View, Timer, Job, remove_toast, refresh_detail, Toast,
  forgot_done, reset_done, log_in_done, sign_up_done, me_done, dashboard_orgs, dashboard_instances,
  dashboard_usage, orgs_done, detail_instances, detail_members, members_done, members_requests,
  join_accepted, join_revoked, member_removed, member_suspended, member_unsuspended, member_invited,
  billing_usage, billing_invoices, webhooks_done, webhook_created, webhook_tested, webhook_deleted,
  webhook_toggled, audit_done, org_created, instance_created, action_done, LoginForm,
}
use iaas_platform.World.Ops.{remove_overlay}
use iaas_platform.Pages.Frame.{render}
use iaas_platform.Pages.Dashboard.{
  dashboard_orgs_done, dashboard_instances_done, dashboard_usage_done,
}
use iaas_platform.Pages.Orgs.{
  detail_instances_done, detail_members_done, render_orgs_done, select_org, back_to_orgs, show_link,
  go_to_settings,
}
use iaas_platform.Pages.Center.{
  toggle_notification_center, dismiss_notification, clear_all_notifications,
}
use iaas_platform.Session.{
  forgot_password_clicked, forgot_answered, reset_password_clicked, reset_answered, log_in_clicked,
  log_in_answered, sign_up_clicked, sign_up_answered, me_answered, show_login_form, logout,
}
use iaas_platform.Account
use iaas_platform.Account.{SettingKey}
use iaas_platform.Tabs.{switch_tab}
use iaas_platform.Tabs.Members
use iaas_platform.Tabs.Billing
use iaas_platform.Tabs.Webhooks
use iaas_platform.Tabs.Audit
use iaas_platform.Instances
use iaas_platform.Instances.{Inputs}
use iaas_platform.Instances.Form.{Field, choose_option}
use iaas_platform.Orgs

-- A task goes on with its answer: through `api`'s own handlers, and then the code behind `await`.
unfoldable pub resume : (t : Task) → Reply t → World → World
unfolding Audit.audit_answered Billing.invoices_answered Billing.usage_answered
    Instances.action_answered Instances.create_answered Members.accept_answered
    Members.invite_answered Members.members_answered Members.remove_answered
    Members.requests_answered Members.revoke_answered Members.suspend_answered
    Members.unsuspend_answered Orgs.create_answered Webhooks.create_answered
    Webhooks.delete_answered Webhooks.test_answered Webhooks.toggle_answered
    Webhooks.webhooks_answered dashboard_instances_done dashboard_orgs_done dashboard_usage_done
    detail_instances_done detail_members_done forgot_answered log_in_answered me_answered
    render_orgs_done reset_answered sign_up_answered
resume forgot_done f w = forgot_answered (settle f) w
resume reset_done f w = reset_answered (settle f) w
resume log_in_done f w = log_in_answered (settle f) w
resume sign_up_done f w = sign_up_answered (settle f) w
resume me_done f w = me_answered (settle f) w
resume (dashboard_orgs m) f w = dashboard_orgs_done m (settle f) w
resume (dashboard_instances m) fs w = dashboard_instances_done m fs w
resume (dashboard_usage m total run) f w = dashboard_usage_done m total run (settle f) w
resume (orgs_done m) f w = render_orgs_done m (settle f) w
resume (detail_instances org) f w = detail_instances_done org f w
resume (detail_members org l) f w = detail_members_done org l f w
resume (members_done t) f w = Members.members_answered t (settle f) w
resume (members_requests t l me banner) f w = Members.requests_answered t l me banner f w
resume join_accepted f w = Members.accept_answered (settle f) w
resume join_revoked f w = Members.revoke_answered (settle f) w
resume member_removed f w = Members.remove_answered (settle f) w
resume (member_suspended user days) f w = Members.suspend_answered user days (settle f) w
resume (member_unsuspended user) f w = Members.unsuspend_answered user (settle f) w
resume (member_invited email role) f w = Members.invite_answered email role (settle f) w
resume (billing_usage t) f w = Billing.usage_answered t f w
resume (billing_invoices t u) f w = Billing.invoices_answered t u f w
resume (webhooks_done t) f w = Webhooks.webhooks_answered t (settle f) w
resume webhook_created f w = Webhooks.create_answered (settle f) w
resume webhook_tested f w = Webhooks.test_answered (settle f) w
resume webhook_deleted f w = Webhooks.delete_answered (settle f) w
resume (webhook_toggled active) f w = Webhooks.toggle_answered active (settle f) w
resume (audit_done t action) f w = Audit.audit_answered t action (settle f) w
resume (org_created name) f w = Orgs.create_answered name (settle f) w
resume (instance_created name cpu memory) f w =
    Instances.create_answered name cpu memory (settle f) w
resume (action_done a id) f w = Instances.action_answered a id (settle f) w

-- What the user's clicks and choices call, with the values of the inputs that are read.
pub data Event : Type 0 where
  back_to_sign_in logging_out : Event
  open_form : LoginForm → Event
  forgot : Text → Event
  log_in : Text → Text → Event
  reset : Text → Text → Event
  sign_up : Text → Text → Text → Text → Event
  link : View → Event
  settings_button toggle_center clear_center : Event
  dismiss close_toast : ℕ → Event
  open_org : ℕ → Event
  back : Event
  tab : Tab → Event
  filter : Text → Event
  close_dialog : ℕ → Event
  new_org new_invite new_webhook new_launch : Event
  create_org invite : Text → Text → Event
  create_webhook : Text → List Text → Text → Event
  launch : Inputs → Event
  choose : Field → Text → Event
  details : ℕ → Event
  copied : Bool → Event
  ask_action run_action : Action → ℕ → Event
  accept revoke ask_remove remove ask_suspend lift : ℕ → Event
  suspend : ℕ → Text → Event
  test ask_delete delete : ℕ → Event
  toggle : ℕ → Bool → Event
  invoice : ℕ → Event
  export download : Event
  setting : SettingKey → Bool → Event
  password_dialog delete_dialog : Event
  new_password : Text → Text → Text → Event
  delete_account : Text → Event

unfoldable pub handle : Event → World → World
unfolding render logout show_login_form log_in_clicked forgot_password_clicked
    reset_password_clicked sign_up_clicked Account.update_setting Account.show_change_password_modal
    Account.change_password Account.show_delete_account_modal Account.delete_account switch_tab
    Members.accept_join_request Members.revoke_join_request Members.ask_remove_member
    Members.confirm_remove_member Members.show_suspend_member Members.confirm_suspend_member
    Members.lift_suspension Members.show_invite_member Members.invite_clicked Billing.view_invoice
    Billing.export_invoices Billing.download_invoice Webhooks.show_create_webhook
    Webhooks.create_clicked Webhooks.test_webhook Webhooks.toggle_webhook
    Webhooks.ask_delete_webhook Webhooks.confirm_delete_webhook Audit.filter_audit
    Instances.show_instance_detail Instances.copy_to_clipboard Instances.confirm_action
    Instances.act Instances.show_create_instance Instances.create_clicked choose_option
    Orgs.show_create_org Orgs.create_clicked select_org back_to_orgs show_link go_to_settings
    toggle_notification_center dismiss_notification clear_all_notifications remove_overlay
    iaas_platform.World.Ops.close_toast
handle back_to_sign_in w = render w
handle logging_out w = logout w
handle (open_form f) w = show_login_form f w
handle (log_in email password) w = log_in_clicked email password w
handle (forgot email) w = forgot_password_clicked email w
handle (reset password confirm) w = reset_password_clicked password confirm w
handle (sign_up name email password slug) w = sign_up_clicked name email password slug w
handle (link v) w = show_link v w
handle settings_button w = go_to_settings w
handle toggle_center w = toggle_notification_center w
handle clear_center w = clear_all_notifications w
handle (dismiss id) w = dismiss_notification id w
handle (close_toast id) w = iaas_platform.World.Ops.close_toast id w
handle (open_org id) w = select_org id w
handle back w = back_to_orgs w
handle (tab t) w = switch_tab t w
handle (filter action) w = Audit.filter_audit action w
handle (close_dialog e) w = remove_overlay e w
handle new_org w = Orgs.show_create_org w
handle new_invite w = Members.show_invite_member w
handle new_webhook w = Webhooks.show_create_webhook w
handle new_launch w = Instances.show_create_instance w
handle (create_org name slug) w = Orgs.create_clicked name slug w
handle (invite email role) w = Members.invite_clicked email role w
handle (create_webhook url events secret) w = Webhooks.create_clicked url events secret w
handle (launch i) w = Instances.create_clicked i w
handle (choose fd v) w = choose_option fd v w
handle (details id) w = Instances.show_instance_detail id w
handle (copied b) w = Instances.copy_to_clipboard b w
handle (ask_action a id) w = Instances.confirm_action a id w
handle (run_action a id) w = Instances.act a id w
handle (accept user) w = Members.accept_join_request user w
handle (revoke user) w = Members.revoke_join_request user w
handle (ask_remove user) w = Members.ask_remove_member user w
handle (remove user) w = Members.confirm_remove_member user w
handle (ask_suspend user) w = Members.show_suspend_member user w
handle (suspend user days) w = Members.confirm_suspend_member user days w
handle (lift user) w = Members.lift_suspension user w
handle (test id) w = Webhooks.test_webhook id w
handle (ask_delete id) w = Webhooks.ask_delete_webhook id w
handle (delete id) w = Webhooks.confirm_delete_webhook id w
handle (toggle id active) w = Webhooks.toggle_webhook id active w
handle (invoice id) w = Billing.view_invoice id w
handle export w = Billing.export_invoices w
handle download w = Billing.download_invoice w
handle (setting key value) w = Account.update_setting key value w
handle password_dialog w = Account.show_change_password_modal w
handle delete_dialog w = Account.show_delete_account_modal w
handle (new_password current next confirm) w = Account.change_password current next confirm w
handle (delete_account input) w = Account.delete_account input w

-- `el.remove()` of a toast, or the refresh that `createInstance` sets up.
unfoldable pub run_job : Job → World → World
unfolding Instances.refresh_current_org
run_job (remove_toast e) w = record w { toasts = keep (λ t. not (t.element == e)) w.toasts }
run_job refresh_detail w = Instances.refresh_current_org w

-- One step of the page. Answers come in any order, timers when they are due or later.
pub data Step : World → World → Type 0 where
  user : (w : World) (e : Event) → Step w (handle e w)
  answer :
      (w : World) (before after : List Pending) (p : Pending) (f : Reply p.task)
      → w.pending ≡ before ++ (p ∷ after)
      → Step w (resume p.task f (record w { pending = before ++ after }))
  timeout :
      (w : World) (before after : List Timer) (t : Timer)
      → w.timers ≡ before ++ (t ∷ after)
      → t.due ≤ w.now
      → Step w (run_job t.job (record w { timers = before ++ after }))
  time : (w : World) (ms : ℕ) → Step w (record w { now = w.now + ms })

pub data Reach (w : World) : World → Type 0 where
  here : Reach w w
  next : {u v : World} → Reach w u → Step u v → Reach w v
