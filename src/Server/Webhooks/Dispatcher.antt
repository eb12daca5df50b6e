-- ===== src/Server/Webhooks/Dispatcher.antt =====
-- `Dispatcher` of internal/webhooks/dispatcher.go. What the endpoint makes of a delivery is a
-- parameter, and so is whether the updates of the rows succeed; the clock stands during one pass.
use iaas_platform.Base.{
  ℕ, zero, suc, ◌+◌, ◌-◌, ◌*◌, ◌%◌, Bool, false, ◌&&◌, List, [], ◌∷◌, length, ltb, leb,
  if◌then◌else◌,
}
use iaas_platform.Server.Webhooks.{
  Queue, WebhookDelivery, pending, failed, list_due, mark_delivered, mark_failed, update_delivery,
}

-- The answer of the endpoint: an HTTP status, or no answer, as where no request can be made.
pub data Answer : Type 0 where
  unreachable : Answer
  http : ℕ → Answer

abbrev pub accepted : Answer → Bool
accepted unreachable = false
accepted (http n) = leb 200 n && ltb n 300

abbrev pub backoff_base : ℕ
backoff_base = 2000000000

abbrev pub backoff_max : ℕ
backoff_max = 300000000000

abbrev pub dispatch_limit : ℕ
dispatch_limit = 50

unfoldable pub power : ℕ → ℕ
power zero = 1
power (suc n) = 2 * power n

abbrev pub int64_limit : ℕ
int64_limit = 9223372036854775808

-- The 64 bits of `backoff`: the shift and the product wrap, and from 2 ^ 63 on they are a negative
-- duration, which is not above the maximum.
unfoldable pub backoff : ℕ → ℕ
unfolding power
backoff attempts =
    let delay =
      (backoff_base * (power (attempts - 1) % 18446744073709551616)) % 18446744073709551616 in
    if ltb delay int64_limit && ltb backoff_max delay then backoff_max else delay

-- `Add`
unfoldable pub add_duration : ℕ → ℕ → ℕ
add_duration t d = if ltb d int64_limit then t + d else t - (18446744073709551616 - d)

-- `fail`, where `MarkFailed` succeeds.
unfoldable pub fail : WebhookDelivery → Queue → Queue
unfolding backoff add_duration update_delivery
fail d q =
    let attempts = suc d.attempts in
    if leb d.max_attempts attempts
    then record q { deliveries = mark_failed d.id failed q.now q.deliveries }
    else record q {
      deliveries = mark_failed d.id pending (add_duration q.now (backoff attempts)) q.deliveries;
    }

-- `deliverOne`
unfoldable pub deliver_one :
    (WebhookDelivery → Answer) → (ℕ → Bool) → WebhookDelivery → Queue → Queue
unfolding fail update_delivery
deliver_one endpoint saves d q =
    if saves d.id
    then if accepted (endpoint d)
      then record q { deliveries = mark_delivered d.id q.deliveries }
      else fail d q
    else q

unfoldable pub deliver_all :
    (WebhookDelivery → Answer) → (ℕ → Bool) → List WebhookDelivery → Queue → Queue
unfolding deliver_one
deliver_all endpoint saves [] q = q
deliver_all endpoint saves (d ∷ l) q = deliver_all endpoint saves l (deliver_one endpoint saves d q)

-- `DispatchOnce`, where the rows are listed: the state after it and the number of attempts.
unfoldable pub dispatch_once : (WebhookDelivery → Answer) → (ℕ → Bool) → Queue → Queue × ℕ
unfolding list_due deliver_all
dispatch_once endpoint saves q =
    let due = list_due dispatch_limit q in (deliver_all endpoint saves due q, length due)
