-- ===== src/Tests/Queues.antt =====
-- The dispatcher and the rate limiter of the server on concrete data.
use iaas_platform.Base.{
  ℕ, leb, keep, length, if◌then◌else◌, ◌+◌, ◌*◌, ◌/◌, ◌≤◌, ◌≡◌, refl, true, false, none, some, List,
  [], ◌∷◌, arith,
}
use iaas_platform.Base.Text.{Text, lit, text_eq}
use iaas_platform.Server.Webhooks.{
  Queue, Webhook, WebhookDelivery, pending, failed, emit, enqueued, subscribed, is_due,
}
use iaas_platform.Server.Webhooks.Dispatcher.{Answer, http, accepted, dispatch_once}
use iaas_platform.Server.Webhooks.Due.{find_delivery, only_due_are_sent}
use iaas_platform.Server.Webhooks.Exhausted.{exhausted_is_sent_forever, rounds}
use iaas_platform.Server.Webhooks.Listed.{rows_of}
use iaas_platform.Server.Webhooks.Service.{find_webhook}
use iaas_platform.Server.Webhooks.Prompt.{as_delivered}
use iaas_platform.Server.Webhooks.Emitted.{emitted_is_delivered}
use iaas_platform.Server.RateLimiter.{RateLimiter, lookup}
use iaas_platform.Server.RateLimiter.Laws.{allowed, total_time, allowed_at_most}
use iaas_platform.Server.RateLimiter.Starving.{steady_client_starves}

abbrev pub hook : Webhook
hook = record {
  id = 1;
  organization_id = 1;
  url = lit "https://a.b/c";
  secret = lit "s";
  events = lit "instance.updated" ∷ [];
  active = true;
}

abbrev waiting : WebhookDelivery
waiting = record {
  id = 4;
  webhook_id = 1;
  event = lit "instance.updated";
  status = pending;
  attempts = 1;
  max_attempts = 5;
  next_attempt_at = 90;
}

abbrev exhausted : WebhookDelivery
exhausted = record waiting { id = 5; status = failed; attempts = 5; next_attempt_at = 10 }

abbrev pub queue : Queue
queue = record {
  webhooks = hook ∷ [];
  deliveries = waiting ∷ exhausted ∷ [];
  next_webhook = 2;
  next_id = 6;
  now = 50;
}

abbrev refusing : WebhookDelivery → Answer
refusing d = http 500

only_due_are_sent_example :
    find_delivery 4 (dispatch_once refusing (λ id. true) queue).0.deliveries
    ≡ find_delivery 4 queue.deliveries
only_due_are_sent_example = only_due_are_sent refusing (λ id. true) 4 queue refl

waiting-found : find_delivery 4 queue.deliveries ≡ some waiting
unfolding find_delivery
waiting-found = refl

exhausted-found : find_delivery 5 queue.deliveries ≡ some exhausted
unfolding find_delivery
exhausted-found = refl

exhausted-rows_of : rows_of 5 queue.deliveries ≤ 1
unfolding rows_of
exhausted-rows_of = omega arith

exhausted_is_sent_forever_example :
    (e : WebhookDelivery) × (find_delivery 5 (rounds refusing (λ id. true) 1000 queue).deliveries
      ≡ some e)
    × (e.attempts ≡ 1005)
exhausted_is_sent_forever_example =
    exhausted_is_sent_forever refusing (λ id. true) 1000 5 exhausted queue exhausted-found
      exhausted-rows_of (omega arith) refl (omega arith) (omega arith) (λ e k. refl) refl

-- Only the new rows are accepted and stored.
abbrev choosy : WebhookDelivery → Answer
choosy d = if leb 6 d.id then http 200 else http 500

choosy-accepted : (e : WebhookDelivery) → 6 ≤ e.id → accepted (choosy e) ≡ true
choosy-accepted e h = ground (arith, h)

hook-found : find_webhook 1 queue.webhooks ≡ some hook
unfolding find_webhook
hook-found = refl

hook-subscribed : subscribed 1 (lit "instance.updated") hook ≡ true
unfolding text_eq lit
hook-subscribed = refl

abbrev after_event : Queue
after_event = emit false 1 (lit "instance.updated") queue

after_event-few :
    length (
      keep
        (λ (e : WebhookDelivery). is_due after_event.webhooks after_event.now e)
        after_event.deliveries)
    ≤ 50
unfolding emit text_eq lit
after_event-few = omega arith

emitted_is_delivered_example :
    (k : ℕ) × (6 ≤ k)
    × (find_delivery k (dispatch_once choosy (leb 6) after_event).0.deliveries
        ≡ some (as_delivered (enqueued 50 k (lit "instance.updated") hook)))
emitted_is_delivered_example =
    emitted_is_delivered choosy (leb 6) 1 (lit "instance.updated") hook queue hook-found
      hook-subscribed refl after_event-few choosy-accepted (λ k h. ground (arith, h))

abbrev limiter : RateLimiter
limiter = record { visitors = []; rate = 1; burst = 10; interval = 1000000000 }

-- Two clients, 1.5 seconds between the calls of the first.
abbrev calls : List (ℕ × Text)
calls = (0, lit "a") ∷ (1500000000, lit "a") ∷ (0, lit "b") ∷ []

nobody : lookup (lit "a") limiter.visitors ≡ none
unfolding lookup
nobody = refl

allowed_at_most_example : allowed (lit "a") limiter 7 calls ≤ 10 + total_time calls / 1000000000 * 1
allowed_at_most_example =
    allowed_at_most (lit "a") limiter 7 calls (omega arith) (omega arith) nobody

abbrev polling : RateLimiter
polling = record limiter { visitors = (lit "a", record { tokens = 0; last_seen = 7 }) ∷ [] }

polling-known : lookup (lit "a") polling.visitors ≡ some (record { tokens = 0; last_seen = 7 })
unfolding lookup text_eq lit
polling-known = refl

-- Every 0.9 seconds.
abbrev polls : List (ℕ × Text)
polls = (900000000, lit "a") ∷ (900000000, lit "a") ∷ (900000000, lit "a") ∷ []

steady_client_starves_example : allowed (lit "a") polling 7 polls ≤ 0
steady_client_starves_example =
    steady_client_starves (lit "a") polling polls (record { tokens = 0; last_seen = 7 })
      polling-known ((omega arith, refl), ((omega arith, refl), ((omega arith, refl), tt)))
