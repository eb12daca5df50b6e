-- ===== src/Tests/Hooks.antt =====
-- The management of webhooks on concrete tables.
use iaas_platform.Base.{◌≡◌, refl, false, Option, some, none, [], ◌∷◌, All, if◌then◌else◌}
use iaas_platform.Base.Text.{Text, lit, text_eq}
use iaas_platform.Server.{found}
use iaas_platform.Server.Webhooks.{Queue}
use iaas_platform.Server.Webhooks.Events.{Url}
use iaas_platform.Server.Webhooks.Service.{
  Faults, CreateWebhookRequest, UpdateWebhookRequest, find_webhook,
}
use iaas_platform.Server.Webhooks.Turns.{creates, updates, deletes, serve, here, asks}
use iaas_platform.Server.Webhooks.Checked.{Registered}
use iaas_platform.Server.Webhooks.Registered.{webhooks_stay_well_formed}
use iaas_platform.Server.Webhooks.Foreign.{Untouched, others_unaffected}
use iaas_platform.Tests.Queues.{hook, queue}

abbrev no_faults : Faults
no_faults = record {
  create = false;
  list = false;
  count = false;
  find = false;
  update = false;
  delete = false;
  deliver = false;
}

-- A reader of one URL.
abbrev parse : Text → Option Url
parse url =
    if text_eq url (lit "https://a.b/c")
    then some (record { scheme = lit "https"; host = lit "a.b" })
    else none

abbrev nothing_registered : Queue
nothing_registered = record {
  webhooks = [];
  deliveries = [];
  next_webhook = 1;
  next_id = 1;
  now = 0;
}

abbrev create_request : CreateWebhookRequest
create_request = record {
  url = lit "https://a.b/c";
  events = lit " instance.created" ∷ lit "instance.created " ∷ lit "org.member_added" ∷ [];
  secret = [];
}

abbrev rename_request : UpdateWebhookRequest
rename_request = record {
  url = none;
  events = some (lit "instance.updated" ∷ []);
  active = some false;
}

abbrev registered_once : Queue
registered_once =
    serve no_faults parse (found (lit "admin")) 1 (creates (some (lit "s3cret")) create_request)
      nothing_registered

abbrev registered_twice : Queue
registered_twice =
    serve no_faults parse (found (lit "admin")) 1 (updates 1 rename_request) registered_once

webhooks_stay_well_formed_example : All (Registered parse) registered_twice.webhooks
webhooks_stay_well_formed_example =
    webhooks_stay_well_formed parse {q = nothing_registered} {v = registered_twice} tt (
      asks
        (asks here no_faults (found (lit "admin")) 1 (creates (some (lit "s3cret")) create_request))
        no_faults (found (lit "admin")) 1 (updates 1 rename_request))

hook-found : find_webhook 1 queue.webhooks ≡ some hook
unfolding find_webhook
hook-found = refl

others_unaffected_example :
    Untouched 1 hook queue (serve no_faults parse (found (lit "admin")) 2 (deletes 1) queue)
others_unaffected_example =
    others_unaffected no_faults parse (found (lit "admin")) 2 (deletes 1) queue 1 hook hook-found
      refl
