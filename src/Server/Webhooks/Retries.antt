-- ===== src/Server/Webhooks/Retries.antt =====
-- How often and after how long a delivery is tried again: internal/webhooks/dispatcher.go.
use iaas_platform.Base.{
  ℕ, zero, suc, ◌+◌, ◌-◌, ◌*◌, ◌%◌, ◌≤◌, ◌<◌, ◌≡◌, refl, ap, ◌∙◌, false, List, [], ◌∷◌, some, leb,
  arith,
}
use Prim.Native.Nat.{min}
use iaas_platform.Server.Webhooks.Due.{find_delivery, failed_attempt-id}
use iaas_platform.Server.Webhooks.{Queue, WebhookDelivery, pending, update_delivery, int32_max}
use iaas_platform.Server.Webhooks.Dispatcher.{
  backoff, backoff_base, backoff_max, add_duration, fail, power,
}

power-pos : (a : ℕ) → 1 ≤ power a
unfolding power
power-pos zero = omega arith
power-pos (suc a) = omega (arith, power-pos a)

power_mono : (a b : ℕ) → a ≤ b → power a ≤ power b
unfolding power
power_mono zero b h = power-pos b
power_mono (suc a) zero h = omega arith
power_mono (suc a) (suc b) h = omega (arith, power_mono a b (omega arith))

power-most : (a : ℕ) → a ≤ 32 → power a ≤ 4294967296
unfolding power
power-most a h = power_mono a 32 h

-- The delay after the first 33 failed attempts is exact: two seconds, doubled for each attempt after
-- the first, and at most five minutes; neither the shift nor the product wraps.
pub backoff_exact : (a : ℕ) → a ≤ 33 → backoff a ≡ min (backoff_base * power (a - 1)) backoff_max
unfolding backoff
backoff_exact a h =
    let most = power-most (a - 1) (omega arith) in
    let shift : power (a - 1) % 18446744073709551616 ≡ power (a - 1) = omega (arith, most) in
    let product : (backoff_base * power (a - 1)) % 18446744073709551616
        ≡ backoff_base * power (a - 1) =
      omega (arith, most) in
    rw (shift, product) (ground (arith, most))

abbrev pub NextTry : WebhookDelivery → ℕ → WebhookDelivery → Type 0
NextTry d now e =
    (e.status ≡ pending)
    × (e.attempts ≡ suc d.attempts)
    × (now + 2000000000 ≤ e.next_attempt_at)
    × (e.next_attempt_at ≤ now + 300000000000)

backoff-bounds : (a : ℕ) → a ≤ 33 → (2000000000 ≤ backoff a) × (backoff a ≤ 300000000000)
backoff-bounds a h =
    let e = backoff_exact a h in
    let p = power-pos (a - 1) in (omega (arith, e, p), omega (arith, e, p))

pub find-update_delivery :
    (id : ℕ) (g : WebhookDelivery → WebhookDelivery) (l : List WebhookDelivery)
    (d : WebhookDelivery)
    → ((e : WebhookDelivery) → (g e).id ≡ e.id)
    → find_delivery id l ≡ some d
    → find_delivery id (update_delivery id g l) ≡ some (g d)
unfolding find_delivery update_delivery
find-update_delivery id g [] d k e = ground arith
find-update_delivery id g (x ∷ l) d k e = ground (arith, k x, find-update_delivery id g l d k)

-- A failed attempt that is not the last one puts the delivery back: pending, one attempt more, not
-- due for two seconds and due after five minutes; up to 32 attempts.
pub failed_attempt_waits :
    (d : WebhookDelivery) (q : Queue)
    → find_delivery d.id q.deliveries ≡ some d
    → suc d.attempts < d.max_attempts
    → d.attempts < 33
    → (e : WebhookDelivery) × (find_delivery d.id (fail d q).deliveries ≡ some e)
      × NextTry d q.now e
unfolding fail add_duration
failed_attempt_waits d q f m a =
    let fits : leb int32_max d.attempts ≡ false = ground (arith, a) in
    let last : leb d.max_attempts (suc d.attempts) ≡ false = ground arith in
    let (low, high) = backoff-bounds (suc d.attempts) (omega arith) in
    let later : add_duration q.now (backoff (suc d.attempts)) ≡ q.now + backoff (suc d.attempts) =
      ground (arith, high) in
    (
      record d {
        status = pending;
        attempts = suc d.attempts;
        next_attempt_at = add_duration q.now (backoff (suc d.attempts));
      },
      rw (last, fail)
          (find-update_delivery d.id _ q.deliveries d (failed_attempt-id _ _) f
            ∙ ap some (ground (arith, fits))),
      (refl, refl, omega (arith, low, later), omega (arith, high, later)),
    )
