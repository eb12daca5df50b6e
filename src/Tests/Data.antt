-- ===== src/Tests/Data.antt =====
-- Data that the tests share.
use iaas_platform.Base.{ℕ, false, none, some, []}
use iaas_platform.Base.Text.{Text, lit}
use iaas_platform.Api.{User, Org, Instance, running, Member, Fetched, replied, AuthBody}
use iaas_platform.World.{World, Storage, Shell, OrgDetail, blank, message, dashboard, instances}
use iaas_platform.Rows.{escaped}
use iaas_platform.Session.{initial, init}

-- A reply with a body that decodes to `v`.
abbrev pub reply : {A : Type 0} → ℕ → A → Fetched A
reply status v = replied status (some (record { error = []; value = v }))

abbrev pub refusal : {A : Type 0} → ℕ → Text → A → Fetched A
refusal status e v = replied status (some (record { error = e; value = v }))

abbrev pub empty_storage : Storage
empty_storage = record {
  token = none;
  theme = none;
  email_notifications = none;
  auto_refresh = none;
}

abbrev pub acme : Org
acme = record { id = 3; name = lit "Acme"; slug = lit "acme"; created_at = 0 }

abbrev pub ann : User
ann = record { id = 7; email = lit "ann@x" }

abbrev pub web : Instance
web = record {
  id = 5;
  name = lit "web";
  instance_type = lit "vm";
  status = running;
  region = lit "us-east-1";
  provider_id = lit "i-1";
  image = lit "debian-12";
  cpu_cores = 2;
  memory_mb = 1024;
  disk_gb = 20;
  ip_address = lit "10.0.0.1";
  created_at = 0;
}

-- An admin, and a member whose suspension ends at a moment.
abbrev pub admin_ann : Member
admin_ann = record {
  user_id = 7;
  name = lit "Ann";
  email = lit "ann@x";
  role = lit "admin";
  suspended_until = none;
  created_at = 0;
}

abbrev pub suspended_bob : Member
suspended_bob = record {
  user_id = 8;
  name = lit "Bob";
  email = lit "bob@x";
  role = lit "member";
  suspended_until = some 100000000;
  created_at = 0;
}

abbrev pub start : World
start = init none (initial empty_storage 0)

abbrev pub session : AuthBody
session = record { token = some (lit "t1"); user = some ann; org_join_pending = false }

abbrev pub frame : Shell
frame = record {
  user_badge = lit "ann@x";
  unread = 0;
  active = some dashboard;
  center = record { is_open = false; items = [] };
  main_id = 0;
  main = blank;
}

abbrev pub acme_page : OrgDetail
acme_page = record {
  name = escaped (lit "Acme");
  slug = escaped (lit "acme");
  instance_count = 0;
  running = 0;
  stopped = 0;
  member_count = 1;
  active_tab = instances;
  tab_id = 1;
  tab = message [];
}
