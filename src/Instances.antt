-- ===== src/Instances.antt =====
-- The instances of an organization, of internal/dashboard/static/app.js: the details, the lifecycle
-- actions, and launching an instance. Instances/Form.antt has the form's presets and its estimate.
pub mod Form
use iaas_platform.Base.{
  ℕ, zero, suc, ◌+◌, Bool, true, false, Option, none, some, List, [], ◌∷◌, ◌++◌, find, ◌==◌, opt_eq,
  if◌then◌else◌,
}
use iaas_platform.Base.Text.{
  Text, lit, is_empty, or_text, trim, ℤ, pos, negsuc, parse_int, show, show_int,
}
use iaas_platform.Api.{
  Org, Instance, Action, start, stop, terminate, NewInstance, Response, success, failure,
  create_instance, instance_action,
}
use iaas_platform.Rows.{
  Markup, raw, escaped, status_class, action_verb, instance_modal_action_buttons,
}
use iaas_platform.World.{
  State, World, Kind, error, Timer, refresh_detail, InstanceDetails, instance_details,
  instance_form, confirm_action_modal, instance_created, action_done,
}
use iaas_platform.World.Ops.{call, toast, modal, add_activity_log, close_modal}
use iaas_platform.Pages.Orgs.{render_org_detail, truthy_id}
use iaas_platform.Tabs.Members.{after, close_or_throw}
use Form.{new_form}

-- `state.instances.find(i => i.id === id)`
unfoldable pub find_instance : ℕ → List Instance → Option Instance
find_instance id l = find (λ i. i.id == id) l

unfoldable pub details_of : Instance → InstanceDetails
unfolding status_class instance_modal_action_buttons
details_of i = record {
  id = i.id;
  name = escaped i.name;
  status = i.status;
  class = status_class i.status;
  instance_type = raw i.instance_type;
  region = raw i.region;
  cpu_cores = i.cpu_cores;
  memory_mb = i.memory_mb;
  disk_gb = i.disk_gb;
  ip_address = raw (or_text i.ip_address (lit "Not assigned"));
  image = raw (or_text i.image (lit "debian-12"));
  provider_id = raw (or_text i.provider_id (lit "-"));
  created = i.created_at;
  buttons = instance_modal_action_buttons i;
}

unfoldable pub show_instance_detail : ℕ → World → World
unfolding find_instance details_of toast modal
show_instance_detail id w = elim (find_instance id w.state.instances) [
  | none ↦ toast (lit "Instance not found") error w
  | some i ↦ modal (instance_details (details_of i)) w
]

-- The argument says whether the browser wrote the clipboard.
unfoldable pub copy_to_clipboard : Bool → World → World
unfolding toast
copy_to_clipboard true w = toast (lit "Copied to clipboard") Kind.success w
copy_to_clipboard false w = toast (lit "Failed to copy") error w

unfoldable pub confirm_action : Action → ℕ → World → World
unfolding modal
confirm_action a id w = modal (confirm_action_modal a id) w

unfoldable pub action_name : Action → Text
action_name start = lit "start"
action_name stop = lit "stop"
action_name terminate = lit "terminate"

-- `action(…)`
unfoldable pub act : Action → ℕ → World → World
unfolding call
act a id w = call (instance_action w.state.current_org id a) (action_done a id) w

-- `state.orgs.find(o => o.id === state.currentOrg)`
unfoldable pub current_org : State → Option Org
current_org s = find (λ (o : Org). opt_eq (some o.id) s.current_org) s.orgs

unfoldable pub refresh_current_org : World → World
unfolding current_org render_org_detail
refresh_current_org w = elim (current_org w.state) [ none ↦ w | some org ↦ render_org_detail org w ]

abbrev refresh_if_open : World → World
refresh_if_open w = elim (truthy_id w.state.current_org) [
  | none ↦ w
  | some _ ↦ refresh_current_org w
]

unfoldable pub action_answered : Action → ℕ → Response (Unit {0}) → World → World
unfolding toast add_activity_log action_name action_verb show truthy_id refresh_current_org
action_answered a id r w =
    after r (lit "Action failed")
      (λ w. refresh_if_open (
        add_activity_log (lit "instance." ++ action_name a)
          (lit "Instance #" ++ (show id ++ (lit " " ++ (action_verb a ++ lit " requested"))))
          (toast (lit "Instance " ++ (action_name a ++ lit " requested")) Kind.success w)))
      w

unfoldable pub show_create_instance : World → World
unfolding modal new_form
show_create_instance w = modal (instance_form new_form) w

-- `parseInt(s) || other`. The inputs are selects of decimal numbers and a number field, whose
-- values have no prefix `0x`.
unfoldable pub number_or : Text → ℕ → ℤ
unfolding parse_int
number_or s other = elim (parse_int s) [
  | none ↦ pos other
  | some (pos zero) ↦ pos other
  | some (pos (suc n)) ↦ pos (suc n)
  | some (negsuc n) ↦ negsuc n
]

-- The values of the form's inputs.
pub record Inputs : Type 0 where
  pub name : Text
  pub instance_type : Text
  pub region : Text
  pub cpu : Text
  pub memory : Text
  pub disk : Text
  pub image : Text
  pub port : Text

unfoldable pub new_instance : Inputs → NewInstance
unfolding trim number_or
new_instance i = record {
  name = trim i.name;
  instance_type = i.instance_type;
  region = i.region;
  image = or_text (trim i.image) (lit "debian-12");
  port = number_or i.port 0;
  cpu_cores = number_or i.cpu 1;
  memory_mb = number_or i.memory 1024;
  disk_gb = number_or i.disk 10;
}

-- `createInstance`
unfoldable pub create_clicked : Inputs → World → World
unfolding new_instance toast call
create_clicked i w =
    let n = new_instance i in
    if is_empty n.name
    then toast (lit "Instance name is required") error w
    else if is_empty n.instance_type
    then toast (lit "Instance type is required") error w
    else if is_empty n.region
    then toast (lit "Region is required") error w
    else call (create_instance w.state.current_org n)
        (instance_created n.name n.cpu_cores n.memory_mb) w

abbrev after_a_second : World → World
after_a_second w = record w {
  timers = record { due = w.now + 1000; job = refresh_detail } ∷ w.timers;
}

unfoldable pub create_answered : Text → ℤ → ℤ → Response (Unit {0}) → World → World
unfolding toast add_activity_log close_modal show_int
create_answered name cpu memory r w =
    after r (lit "Failed to launch instance")
      (λ w.
        close_or_throw (λ w. after_a_second (toast (lit "✅ Instance launching...") Kind.success w))
          (add_activity_log (lit "instance.create")
            (lit "Launched instance \""
              ++ (name
                  ++ (lit "\" ("
                      ++ (show_int cpu ++ (lit "vCPU, " ++ (show_int memory ++ lit "MB)"))))))
            w))
      w
