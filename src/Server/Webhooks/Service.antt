-- ===== src/Server/Webhooks/Service.antt =====
-- `Service` of internal/webhooks/service.go over the tables. Which calls of the database fail is given
-- by `Faults`; what `FindMember` finds is an argument, of which the role is read, and so are the
-- secret that `newSecret` makes and `url.Parse`.
use iaas_platform.Base.{
  ℕ, zero, suc, Bool, true, not, Option, none, some, List, [], ◌∷◌, ◌++◌, find, keep, take, length,
  ◌==◌, if◌then◌else◌,
}
use iaas_platform.Base.Text.{Text, lit, text_eq, is_empty}
use iaas_platform.Server.{Lookup, found, missing, broken}
use iaas_platform.Server.Webhooks.{Queue, Webhook, WebhookDelivery, enqueued}
use iaas_platform.Server.Webhooks.Events.{
  Error, not_admin, not_found, internal, Url, event_ping, normalize_events, validate_request,
}

-- The calls that fail.
pub record Faults : Type 0 where
  pub create : Bool
  pub list : Bool
  pub count : Bool
  pub find : Bool
  pub update : Bool
  pub delete : Bool
  pub deliver : Bool

pub data Result (A : Type 0) : Type 0 where
  ok : A → Result A
  refused : Error → Result A

pub record CreateWebhookRequest : Type 0 where
  pub url : Text
  pub events : List Text
  pub secret : Text

pub record UpdateWebhookRequest : Type 0 where
  pub url : Option Text
  pub events : Option (List Text)
  pub active : Option Bool

-- `requireAdmin` before the rest of an operation.
abbrev pub for_admin : {A : Type 0} → Lookup Text → Queue → Queue × Result A → Queue × Result A
for_admin missing q k = (q, refused not_admin)
for_admin broken q k = (q, refused internal)
for_admin (found role) q k = if text_eq role (lit "admin") then k else (q, refused not_admin)

-- `FindByID`
unfoldable pub find_webhook : ℕ → List Webhook → Option Webhook
find_webhook id l = find (λ (h : Webhook). h.id == id) l

-- `requireOwned`
unfoldable pub require_owned : Faults → ℕ → ℕ → Queue → Lookup Webhook
unfolding find_webhook
require_owned f org id q = if f.find then broken else elim (find_webhook id q.webhooks) [
  | none ↦ missing
  | some h ↦ if h.organization_id == org then found h else missing
]

-- `requireOwned` before the rest of an operation.
abbrev pub for_owned :
    {A : Type 0} → Lookup Webhook → Queue → (Webhook → Queue × Result A) → Queue × Result A
for_owned missing q k = (q, refused not_found)
for_owned broken q k = (q, refused internal)
for_owned (found h) q k = k h

-- The secret of a new webhook, if there is one.
abbrev pub secret_of : Text → Option Text → Option Text
secret_of given generated = if is_empty given then generated else some given

abbrev pub new_webhook : ℕ → ℕ → Text → Text → List Text → Webhook
new_webhook id org url secret events = record {
  id = id;
  organization_id = org;
  url = url;
  secret = secret;
  events = events;
  active = true;
}

-- `store.Create` and what follows it.
unfoldable pub store_webhook : Faults → Webhook → Queue → Queue × Result Webhook
store_webhook f h q =
    if f.create
    then (q, refused internal)
    else (record q { webhooks = q.webhooks ++ (h ∷ []); next_webhook = suc q.next_webhook }, ok h)

-- `Create`
unfoldable pub create :
    Faults
    → (Text → Option Url)
    → Option Text
    → Lookup Text
    → ℕ
    → CreateWebhookRequest
    → Queue
    → Queue × Result Webhook
unfolding normalize_events validate_request store_webhook
create f parse generated m org r q =
    let events = normalize_events r.events in
    for_admin m q (elim (validate_request parse r.url events) [
      | some e ↦ (q, refused e)
      | none ↦ elim (secret_of r.secret generated) [
        | none ↦ (q, refused internal)
        | some s ↦ store_webhook f (new_webhook q.next_webhook org r.url s events) q
      ]
    ])

unfoldable pub skip : ℕ → List Webhook → List Webhook
skip zero l = l
skip (suc n) [] = []
skip (suc n) (h ∷ l) = skip n l

-- `List`, with `ListByOrg` and `CountByOrg`.
unfoldable pub list : Faults → Lookup Text → ℕ → ℕ → ℕ → Queue → Queue × Result (List Webhook × ℕ)
unfolding skip
list f m org limit offset q =
    let owned = keep (λ (h : Webhook). h.organization_id == org) q.webhooks in
    for_admin m q (
      if f.list
      then (q, refused internal)
      else if f.count
      then (q, refused internal)
      else (q, ok (take limit (skip offset owned), length owned)))

-- `Get`
unfoldable pub get : Faults → Lookup Text → ℕ → ℕ → Queue → Queue × Result Webhook
unfolding require_owned
get f m org id q = for_admin m q (for_owned (require_owned f org id q) q (λ h. (q, ok h)))

-- `WebhookRepository.Update`: the row with the key of the webhook.
unfoldable pub update_webhook : Webhook → List Webhook → List Webhook
update_webhook h [] = []
update_webhook h (k ∷ l) = let rest = update_webhook h l in if k.id == h.id then h ∷ l else k ∷ rest

-- The URL of the request, checked with the events that the webhook has.
unfoldable pub with_url : (Text → Option Url) → Option Text → Webhook → Result Webhook
unfolding validate_request
with_url parse none h = ok h
with_url parse (some url) h = elim (validate_request parse url h.events) [
  | some e ↦ refused e
  | none ↦ ok (record h { url = url })
]

-- The events of the request, checked with the URL that the webhook has by then.
unfoldable pub with_events : (Text → Option Url) → Option (List Text) → Webhook → Result Webhook
unfolding normalize_events validate_request
with_events parse none h = ok h
with_events parse (some l) h = elim (validate_request parse h.url (normalize_events l)) [
  | some e ↦ refused e
  | none ↦ ok (record h { events = normalize_events l })
]

abbrev pub with_active : Option Bool → Webhook → Webhook
with_active none h = h
with_active (some b) h = record h { active = b }

abbrev pub then_do : {A B : Type 0} → Result A → (A → Result B) → Result B
then_do (refused e) k = refused e
then_do (ok a) k = k a

-- The webhook that an update request asks for.
unfoldable pub changed : (Text → Option Url) → UpdateWebhookRequest → Webhook → Result Webhook
unfolding with_url with_events
changed parse r h = then_do (with_url parse r.url h) (λ (g : Webhook).
    then_do (with_events parse r.events g) (λ (k : Webhook). ok (with_active r.active k)))

-- `store.Update` of the webhook that was asked for.
unfoldable pub save_webhook : Faults → Result Webhook → Queue → Queue × Result Webhook
unfolding update_webhook
save_webhook f (refused e) q = (q, refused e)
save_webhook f (ok h) q =
    if f.update
    then (q, refused internal)
    else (record q { webhooks = update_webhook h q.webhooks }, ok h)

-- `Update`
unfoldable pub update :
    Faults
    → (Text → Option Url)
    → Lookup Text
    → ℕ
    → ℕ
    → UpdateWebhookRequest
    → Queue
    → Queue × Result Webhook
unfolding require_owned changed save_webhook
update f parse m org id r q =
    for_admin m q
      (for_owned (require_owned f org id q) q (λ h. save_webhook f (changed parse r h) q))

-- `WebhookRepository.Delete`, where the row exists: the row and, by the foreign key, its deliveries.
unfoldable pub delete_webhook : ℕ → List Webhook → List Webhook
delete_webhook id [] = []
delete_webhook id (h ∷ l) = let rest = delete_webhook id l in if h.id == id then l else h ∷ rest

unfoldable pub remove_webhook : ℕ → Queue → Queue
unfolding delete_webhook
remove_webhook id q = record q {
  webhooks = delete_webhook id q.webhooks;
  deliveries = keep (λ (d : WebhookDelivery). not (d.webhook_id == id)) q.deliveries;
}

-- `Delete`
unfoldable pub delete : Faults → Lookup Text → ℕ → ℕ → Queue → Queue × Result (Unit {0})
unfolding require_owned remove_webhook
delete f m org id q = for_admin m q (
    for_owned (require_owned f org id q) q
      (λ h. if f.delete then (q, refused internal) else (remove_webhook id q, ok tt)))

-- `CreateSingleDelivery`
unfoldable pub create_single_delivery : Text → Webhook → Queue → Queue
create_single_delivery event h q = record q {
  deliveries = q.deliveries ++ (enqueued q.now q.next_id event h ∷ []);
  next_id = suc q.next_id;
}

-- `Ping`
unfoldable pub ping : Faults → Lookup Text → ℕ → ℕ → Queue → Queue × Result (Unit {0})
unfolding require_owned create_single_delivery
ping f m org id q = for_admin m q (
    for_owned (require_owned f org id q) q (λ h.
      if f.deliver then (q, refused internal) else (create_single_delivery event_ping h q, ok tt)))
