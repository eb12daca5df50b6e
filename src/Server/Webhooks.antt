-- ===== src/Server/Webhooks.antt =====
-- The delivery queue of internal/webhooks and its tables, internal/database/webhooks.go. Rows stand
-- in the order of their `id`; times are in nanoseconds. The payload, `last_error`, `delivered_at` and
-- the times of creation and change are left out.
pub mod Events
pub mod Service
pub mod Turns
pub mod Checked
pub mod Effects
pub mod Registered
pub mod Foreign
pub mod Dispatcher
pub mod Due
pub mod Retries
pub mod Listed
pub mod Exhausted
pub mod Prompt
pub mod Emitted
use iaas_platform.Base.{
  ℕ, zero, suc, ◌+◌, Bool, true, false, ◌&&◌, Option, none, some, List, [], ◌∷◌, ◌++◌, any, keep,
  take, leb, ◌==◌, if◌then◌else◌,
}
use iaas_platform.Base.Text.{Text, text_eq}

pub record Webhook : Type 0 where
  pub id : ℕ
  pub organization_id : ℕ
  pub url : Text
  pub secret : Text
  pub events : List Text
  pub active : Bool

pub data DeliveryStatus : Type 0 where
  pending delivered failed : DeliveryStatus

pub record WebhookDelivery : Type 0 where
  pub id : ℕ
  pub webhook_id : ℕ
  pub event : Text
  pub status : DeliveryStatus
  pub attempts : ℕ
  pub max_attempts : ℕ
  pub next_attempt_at : ℕ

pub record Queue : Type 0 where
  pub webhooks : List Webhook
  pub deliveries : List WebhookDelivery
  pub next_webhook : ℕ
  pub next_id : ℕ
  pub now : ℕ

abbrev pub subscribed : ℕ → Text → Webhook → Bool
subscribed org event h =
    h.organization_id == org && (h.active && any (λ (e : Text). text_eq e event) h.events)

abbrev pub enqueued : ℕ → ℕ → Text → Webhook → WebhookDelivery
enqueued now id event h = record {
  id = id;
  webhook_id = h.id;
  event = event;
  status = pending;
  attempts = 0;
  max_attempts = 5;
  next_attempt_at = now;
}

-- `CreateDeliveries`: one row for each active webhook of the organization that has the event.
unfoldable pub create_deliveries : ℕ → Text → List Webhook → Queue → Queue
create_deliveries org event [] q = q
create_deliveries org event (h ∷ l) q =
    let added = create_deliveries org event l (record q {
      deliveries = q.deliveries ++ (enqueued q.now q.next_id event h ∷ []);
      next_id = suc q.next_id;
    }) in
    let skipped = create_deliveries org event l q in
    if subscribed org event h then added else skipped

-- `Emit`, whose insert may fail, which is logged.
unfoldable pub emit : Bool → ℕ → Text → Queue → Queue
unfolding create_deliveries
emit fails org event q = if fails then q else create_deliveries org event q.webhooks q

-- `status IN ('pending', 'failed')`
abbrev pub retriable : DeliveryStatus → Bool
retriable s = elim s [ delivered ↦ false | _ ↦ true ]

abbrev pub is_due : List Webhook → ℕ → WebhookDelivery → Bool
is_due hooks now d =
    any (λ (h : Webhook). h.id == d.webhook_id && h.active) hooks
    && (retriable d.status && leb d.next_attempt_at now)

-- `ORDER BY next_attempt_at`; rows of the same time keep their order.
unfoldable pub insert_due : WebhookDelivery → List WebhookDelivery → List WebhookDelivery
insert_due d [] = d ∷ []
insert_due d (e ∷ l) =
    let rest = insert_due d l in
    if leb d.next_attempt_at e.next_attempt_at then d ∷ e ∷ l else e ∷ rest

unfoldable pub sort_due : List WebhookDelivery → List WebhookDelivery
unfolding insert_due
sort_due [] = []
sort_due (d ∷ l) = insert_due d (sort_due l)

-- `ListDue`
unfoldable pub list_due : ℕ → Queue → List WebhookDelivery
unfolding sort_due
list_due limit q =
    take limit (sort_due (keep (λ (d : WebhookDelivery). is_due q.webhooks q.now d) q.deliveries))

-- The update of the row with this key.
unfoldable pub update_delivery :
    ℕ → (WebhookDelivery → WebhookDelivery) → List WebhookDelivery → List WebhookDelivery
update_delivery id g [] = []
update_delivery id g (d ∷ l) =
    let rest = update_delivery id g l in if d.id == id then g d ∷ l else d ∷ rest

-- The column `attempts` is an INT.
abbrev pub int32_max : ℕ
int32_max = 2147483647

-- What `MarkFailed` makes of a row; with one attempt more than the column holds the update fails.
abbrev pub failed_attempt : DeliveryStatus → ℕ → WebhookDelivery → WebhookDelivery
failed_attempt s at d =
    if leb int32_max d.attempts
    then d
    else record d { status = s; attempts = suc d.attempts; next_attempt_at = at }

-- `MarkDelivered` and `MarkFailed`
abbrev pub mark_delivered : ℕ → List WebhookDelivery → List WebhookDelivery
unfolding update_delivery
mark_delivered id l = update_delivery id (λ d. record d { status = delivered }) l

abbrev pub mark_failed : ℕ → DeliveryStatus → ℕ → List WebhookDelivery → List WebhookDelivery
unfolding update_delivery
mark_failed id s at l = update_delivery id (failed_attempt s at) l
