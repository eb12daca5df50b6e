-- ===== src/Rows.antt =====
-- The table rows, badges and buttons of internal/dashboard/static/app.js: what each template
-- shows and which handlers its buttons call. Static markup and styles are left out.
pub mod Buttons
pub mod Members
use iaas_platform.Base.{ℕ, ◌-◌, ◌+◌, ◌*◌, ◌/◌, ◌≡◌, Bool, true, false, not, ◌&&◌}
use iaas_platform.Base.{Option, none, some, List, [], ◌∷◌, ◌++◌, map}
use iaas_platform.Base.{leb, ltb, ◌==◌, opt_eq, if◌then◌else◌}
use iaas_platform.Base.Text.{Text, lit, text_eq, or_text, is_empty}
use iaas_platform.Api.{
  Org, Status, Instance, Member, Invoice, Webhook, pending, running, stopping, stopped, terminating,
  terminated, failed, unknown, Action, start, stop, terminate,
}

-- A text put into a template: through `escape`, or as it is.
pub data Markup : Type 0 where
  escaped raw : Text → Markup

pub data Color : Type 0 where
  green yellow blue gray red purple : Color

unfoldable pub status_class : Status → Color
status_class running = green
status_class stopped = yellow
status_class pending = blue
status_class stopping = blue
status_class terminating = blue
status_class terminated = gray
status_class failed = red
status_class (unknown _) = red

unfoldable pub invoice_status_class : Text → Color
invoice_status_class status =
    if text_eq status (lit "paid")
    then green
    else if text_eq status (lit "overdue")
    then red
    else yellow

unfoldable pub action_verb : Action → Text
action_verb terminate = lit "terminated"
action_verb stop = lit "stopped"
action_verb start = lit "started"

-- The calls that stand in the `onclick` of a button.
pub data Call : Type 0 where
  select_org : ℕ → Call
  act confirm_act : Action → ℕ → Call
  copy_to_clipboard : Text → Call
  show_suspend_member unsuspend_member remove_member : ℕ → Call
  view_invoice : ℕ → Call
  test_webhook delete_webhook : ℕ → Call
  toggle_webhook : ℕ → Bool → Call

pub record OrgRow : Type 0 where
  pub name : Markup
  pub slug : Markup
  pub created : ℕ
  pub label : Text
  pub click : Call

-- `buttonClass` is a style; `buttonText` is `label`.
unfoldable pub org_row : Org → Text → OrgRow
org_row org label = record {
  name = escaped org.name;
  slug = escaped org.slug;
  created = org.created_at;
  label = label;
  click = select_org org.id;
}

abbrev pub day_ms : ℕ
day_ms = 24 * 60 * 60 * 1000

abbrev pub suspension_reminder_days : ℕ
suspension_reminder_days = 2

abbrev pub suspension_reminder_ms : ℕ
suspension_reminder_ms = suspension_reminder_days * 24 * 60 * 60 * 1000

-- `ms` is never negative where it is called: `Math.ceil` of the days, and 1 at least.
unfoldable pub days_left : ℕ → ℕ
days_left ms = let days = (ms + (day_ms - 1)) / day_ms in if leb days 1 then 1 else days

pub data StatusCell : Type 0 where
  active auto_restored : StatusCell
  ends_in : ℕ → StatusCell
  suspended_to : ℕ → StatusCell

unfoldable pub status_cell : Option ℕ → ℕ → StatusCell
unfolding days_left
status_cell none now = active
status_cell (some until) now =
    if leb until now
    then auto_restored
    else if leb (until - now) suspension_reminder_ms
    then ends_in (days_left (until - now))
    else suspended_to until

-- `expiringSoon`, which highlights the row.
unfoldable pub expiring_soon : Option ℕ → ℕ → Bool
expiring_soon none now = false
expiring_soon (some until) now = not (leb until now) && leb (until - now) suspension_reminder_ms

unfoldable pub is_suspended : Option ℕ → ℕ → Bool
is_suspended none now = false
is_suspended (some until) now = ltb now until

pub record MemberRow : Type 0 where
  pub highlighted : Bool
  pub name : Markup
  pub is_me : Bool
  pub email : Markup
  pub user_id : Option ℕ
  pub role : Markup
  pub role_class : Color
  pub cell : StatusCell
  pub joined : Option ℕ
  pub actions : List Call

unfoldable pub member_actions : Member → Bool → Bool → ℕ → List Call
unfolding is_suspended
member_actions m is_admin is_me now =
    if is_admin && not is_me
    then (if is_suspended m.suspended_until now
        then unsuspend_member m.user_id
        else show_suspend_member m.user_id)
      ∷ remove_member m.user_id
      ∷ []
    else []

-- `me` is `state.user?.id`.
unfoldable pub member_row : Member → Bool → Option ℕ → ℕ → MemberRow
unfolding member_actions status_cell expiring_soon
member_row m is_admin me now =
    let is_me = opt_eq (some m.user_id) me in
    record {
      highlighted = expiring_soon m.suspended_until now;
      name = escaped (or_text m.name (lit "User"));
      is_me = is_me;
      email = escaped m.email;
      user_id = some m.user_id;
      role = raw m.role;
      role_class = if text_eq m.role (lit "admin") then purple else gray;
      cell = status_cell m.suspended_until now;
      joined = some m.created_at;
      actions = member_actions m is_admin is_me now;
    }

abbrev is_running : Status → Bool
is_running s = elim s [ running ↦ true | _ ↦ false ]

abbrev is_stopped : Status → Bool
is_stopped s = elim s [ stopped ↦ true | _ ↦ false ]

-- `status !== 'terminated' && status !== 'terminating'`
abbrev can_terminate : Status → Bool
can_terminate s = elim s [ terminated ↦ false | terminating ↦ false | _ ↦ true ]

abbrev push_if {ℓ} : {A : Type ℓ} → Bool → A → List A
push_if b x = if b then x ∷ [] else []

unfoldable pub instance_action_buttons : Instance → List Call
instance_action_buttons i =
    push_if (is_running i.status) (act stop i.id)
    ++ (push_if (is_stopped i.status) (act start i.id)
        ++ push_if (can_terminate i.status) (confirm_act terminate i.id))

unfoldable pub instance_modal_action_buttons : Instance → List Call
instance_modal_action_buttons i =
    push_if (is_running i.status) (act stop i.id)
    ++ (push_if (is_stopped i.status) (act start i.id)
        ++ (push_if (not (is_empty i.ip_address)) (copy_to_clipboard i.ip_address)
            ++ push_if (can_terminate i.status) (confirm_act terminate i.id)))

pub record InstanceRow : Type 0 where
  pub id : ℕ
  pub name : Markup
  pub instance_type : Markup
  pub type_class : Color
  pub status : Status
  pub class : Color
  pub cpu_cores : ℕ
  pub memory_mb : ℕ
  pub disk_gb : ℕ
  pub ip_address : Markup
  pub region : Markup
  pub buttons : List Call

-- A click on the row shows the details of `id`.
unfoldable pub instance_row : Instance → InstanceRow
unfolding status_class instance_action_buttons
instance_row i = record {
  id = i.id;
  name = escaped i.name;
  instance_type = raw i.instance_type;
  type_class = if text_eq i.instance_type (lit "vm") then purple else gray;
  status = i.status;
  class = status_class i.status;
  cpu_cores = i.cpu_cores;
  memory_mb = i.memory_mb;
  disk_gb = i.disk_gb;
  ip_address = raw (or_text i.ip_address (lit "-"));
  region = raw i.region;
  buttons = instance_action_buttons i;
}

pub record InvoiceRow : Type 0 where
  pub period_start : ℕ
  pub period_end : ℕ
  pub amount_cents : ℕ
  pub status : Markup
  pub class : Color
  pub created : ℕ
  pub click : Call

-- The amount is printed in dollars to two places, which is exact for a number of cents.
unfoldable pub invoice_row : Invoice → InvoiceRow
unfolding invoice_status_class
invoice_row inv = record {
  period_start = inv.period_start;
  period_end = inv.period_end;
  amount_cents = inv.amount_cents;
  status = raw inv.status;
  class = invoice_status_class inv.status;
  created = inv.created_at;
  click = view_invoice inv.id;
}

pub record WebhookRow : Type 0 where
  pub url : Markup
  pub events : List Markup
  pub class : Color
  pub label : Text
  pub created : ℕ
  pub buttons : List (Text × Call)

abbrev event_list : Option (List Text) → List Text
event_list none = []
event_list (some l) = l

-- An empty `events` is shown as "none".
unfoldable pub webhook_row : Webhook → WebhookRow
webhook_row w = record {
  url = escaped w.url;
  events = map escaped (event_list w.events);
  class = if w.active then green else gray;
  label = if w.active then lit "Active" else lit "Disabled";
  created = w.created_at;
  buttons =
      (lit "Test", test_webhook w.id)
      ∷ (if w.active then lit "Disable" else lit "Enable", toggle_webhook w.id w.active)
      ∷ (lit "Delete", delete_webhook w.id)
      ∷ [];
}
