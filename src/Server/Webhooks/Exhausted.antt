-- ===== src/Server/Webhooks/Exhausted.antt =====
-- A delivery that used up its attempts: internal/webhooks/dispatcher.go.
use iaas_platform.Base.{
  ℕ, zero, suc, ◌+◌, ◌≤◌, ◌<◌, ◌≡◌, refl, ap, sym, ◌∙◌, inl, inr, Bool, true, false, some, List, [],
  ◌∷◌, keep, length, leb, ◌==◌, arith, Bool-cases,
}
use mathlib.Core.Option.{some-injective}
use iaas_platform.Server.Webhooks.{
  Queue, WebhookDelivery, pending, failed, is_due, sort_due, list_due, failed_attempt, int32_max,
}
use iaas_platform.Server.Webhooks.Dispatcher.{
  add_duration, backoff, Answer, accepted, fail, deliver_one, deliver_all, dispatch_once,
  dispatch_limit,
}
use iaas_platform.Server.Webhooks.Due.{
  find_delivery, failed_attempt-id, deliver_one-other, deliver_all-other,
}
use iaas_platform.Server.Webhooks.Retries.{find-update_delivery}
use iaas_platform.Server.Webhooks.Registered.{dispatch_once-webhooks}
use iaas_platform.Server.Webhooks.Prompt.{as_delivered, take-whole, length-sort_due}
use iaas_platform.Server.Webhooks.Listed.{
  rows_of, rows_of-any, rows_of-keep, find-keep, length-keep, rows_of-sort_due, find-sort_due,
  rows_of-update_delivery,
}

-- The passes of a dispatcher, one every five seconds.
unfoldable pub rounds : (WebhookDelivery → Answer) → (ℕ → Bool) → ℕ → Queue → Queue
unfolding dispatch_once
rounds endpoint saves zero q = q
rounds endpoint saves (suc n) q =
    let v = (dispatch_once endpoint saves q).0 in
    rounds endpoint saves n (record v { now = v.now + 5000000000 })

-- The row after an attempt past the maximum.
abbrev again : ℕ → WebhookDelivery → WebhookDelivery
again now d = record d { status = failed; attempts = suc d.attempts; next_attempt_at = now }

module _ (endpoint : WebhookDelivery → Answer) (saves : ℕ → Bool) (id : ℕ)
    (refuses : (e : WebhookDelivery) → (e.id == id) ≡ true → accepted (endpoint e) ≡ false)
    (saved : saves id ≡ true) where
  deliver_one-keeps :
      (d : WebhookDelivery) (q : Queue)
      → (rows_of id (deliver_one endpoint saves d q).deliveries ≡ rows_of id q.deliveries)
        × (length (deliver_one endpoint saves d q).deliveries ≡ length q.deliveries)
        × ((deliver_one endpoint saves d q).now ≡ q.now)
  unfolding deliver_one fail
  deliver_one-keeps d q = elim (Bool-cases (saves d.id)) [
    | inr s ↦ rw (s, deliver_one) (refl, refl, refl)
    | inl s ↦ elim (Bool-cases (accepted (endpoint d))) [
      | inl a ↦
          let (x, y) = rows_of-update_delivery id d.id as_delivered q.deliveries (λ e. refl) in
          rw (s, a, deliver_one) (x, y, refl)
      | inr a ↦ elim (Bool-cases (leb d.max_attempts (suc d.attempts))) [
        | inl m ↦
            let g = failed_attempt failed q.now in
            let (x, y) =
              rows_of-update_delivery id d.id g q.deliveries (failed_attempt-id failed q.now) in
            rw (s, a, m, deliver_one, fail) (x, y, refl)
        | inr m ↦
            let at = add_duration q.now (backoff (suc d.attempts)) in
            let g = failed_attempt pending at in
            let (x, y) =
              rows_of-update_delivery id d.id g q.deliveries (failed_attempt-id pending at) in
            rw (s, a, m, deliver_one, fail) (x, y, refl)
      ]
    ]
  ]

  deliver_one-fails :
      (d : WebhookDelivery) (q : Queue)
      → d.id ≡ id
      → find_delivery id q.deliveries ≡ some d
      → d.max_attempts ≤ suc d.attempts
      → d.attempts < int32_max
      → find_delivery id (deliver_one endpoint saves d q).deliveries ≡ some (again q.now d)
  unfolding deliver_one fail
  deliver_one-fails d q same f m b =
      let s : saves d.id ≡ true = ap saves same ∙ saved in
      let r : accepted (endpoint d) ≡ false = refuses d (ground (arith, same)) in
      let last : leb d.max_attempts (suc d.attempts) ≡ true = ground (arith, m) in
      let fits : leb int32_max d.attempts ≡ false = ground (arith, b) in
      let here = ap (λ k. find_delivery k q.deliveries) same ∙ f in
      let row : failed_attempt failed q.now d ≡ again q.now d = rw fits refl in
      ap (λ k. find_delivery k (deliver_one endpoint saves d q).deliveries) (sym same)
      ∙ rw (s, r, last, deliver_one, fail)
          (find-update_delivery d.id (failed_attempt failed q.now) q.deliveries d
              (failed_attempt-id failed q.now) here
            ∙ ap some row)

  deliver_all-fails :
      (l : List WebhookDelivery) (d : WebhookDelivery) (q : Queue)
      → rows_of id l ≤ 1
      → find_delivery id l ≡ some d
      → find_delivery id q.deliveries ≡ some d
      → d.max_attempts ≤ suc d.attempts
      → d.attempts < int32_max
      → find_delivery id (deliver_all endpoint saves l q).deliveries ≡ some (again q.now d)
  unfolding deliver_all rows_of find_delivery
  deliver_all-fails [] d q one listed f m b = ground arith
  deliver_all-fails (e ∷ l) d q one listed f m b = elim (Bool-cases (e.id == id)) [
    | inl k ↦
        let same : e ≡ d = some-injective e d (ground (arith, listed, k)) in
        let key : d.id ≡ id = sym (ap (λ (x : WebhookDelivery). x.id) same) ∙ ground (arith, k) in
        let rest = rows_of-any id l (ground (arith, one, k)) in
        deliver_all-other endpoint saves l (deliver_one endpoint saves e q) id rest
        ∙ ap (λ x. find_delivery id (deliver_one endpoint saves x q).deliveries) same
        ∙ deliver_one-fails d q key f m b
    | inr k ↦
        let now = (deliver_one-keeps e q).2 in
        deliver_all-fails l d (deliver_one endpoint saves e q) (ground (arith, one, k))
          (ground (arith, listed, k)) (deliver_one-other endpoint saves e q id k ∙ f) m b
        ∙ ap (λ t. some (again t d)) now
  ]

  deliver_all-keeps :
      (l : List WebhookDelivery) (q : Queue)
      → (rows_of id (deliver_all endpoint saves l q).deliveries ≡ rows_of id q.deliveries)
        × (length (deliver_all endpoint saves l q).deliveries ≡ length q.deliveries)
        × ((deliver_all endpoint saves l q).now ≡ q.now)
  unfolding deliver_all
  deliver_all-keeps [] q = (refl, refl, refl)
  deliver_all-keeps (d ∷ l) q =
      let v = deliver_one endpoint saves d q in
      let (a, b, c) = deliver_all-keeps l v in
      let (x, y, z) = deliver_one-keeps d q in (a ∙ x, b ∙ y, c ∙ z)

  dispatch_once-keeps :
      (q : Queue)
      → (rows_of id (dispatch_once endpoint saves q).0.deliveries ≡ rows_of id q.deliveries)
        × (length (dispatch_once endpoint saves q).0.deliveries ≡ length q.deliveries)
        × ((dispatch_once endpoint saves q).0.now ≡ q.now)
  unfolding dispatch_once
  dispatch_once-keeps q = deliver_all-keeps (list_due dispatch_limit q) q

  -- One pass over a queue of at most 50 rows.
  dispatch_once-fails :
      (d : WebhookDelivery) (q : Queue)
      → find_delivery id q.deliveries ≡ some d
      → rows_of id q.deliveries ≤ 1
      → length q.deliveries ≤ 50
      → is_due q.webhooks q.now d ≡ true
      → d.max_attempts ≤ suc d.attempts
      → d.attempts < int32_max
      → find_delivery id (dispatch_once endpoint saves q).0.deliveries ≡ some (again q.now d)
  unfolding dispatch_once list_due
  dispatch_once-fails d q f one few h m b =
      let due = λ (e : WebhookDelivery). is_due q.webhooks q.now e in
      let rows = keep due q.deliveries in
      let fewer = length-keep due q.deliveries in
      let less = rows_of-keep due id q.deliveries in
      let size = length-sort_due rows in
      let count = rows_of-sort_due id rows in
      let whole = take-whole dispatch_limit (sort_due rows) (omega (arith, few, fewer, size)) in
      let listed =
        find-sort_due id d rows (omega (arith, one, less)) (find-keep due id d q.deliveries f h) in
      rw (whole)
        (deliver_all-fails (sort_due rows) d q (omega (arith, one, less, count)) listed f m b)

-- A delivery that fails for good is sent again in every pass: in a queue of at most 50 rows with
-- distinct keys, a delivery that is due and used up its attempts has one attempt more after each
-- pass while its endpoint refuses it and the updates of its row succeed, up to the largest number
-- that the column holds, whatever the other endpoints answer and whichever other updates fail.
pub exhausted_is_sent_forever :
    (endpoint : WebhookDelivery → Answer) (saves : ℕ → Bool) (n id : ℕ) (d : WebhookDelivery)
    (q : Queue)
    → find_delivery id q.deliveries ≡ some d
    → rows_of id q.deliveries ≤ 1
    → length q.deliveries ≤ 50
    → is_due q.webhooks q.now d ≡ true
    → d.max_attempts ≤ suc d.attempts
    → d.attempts + n ≤ int32_max
    → ((e : WebhookDelivery) → (e.id == id) ≡ true → accepted (endpoint e) ≡ false)
    → saves id ≡ true
    → (e : WebhookDelivery) × (find_delivery id (rounds endpoint saves n q).deliveries ≡ some e)
      × (e.attempts ≡ d.attempts + n)
unfolding rounds
exhausted_is_sent_forever endpoint saves zero id d q f one few h m b r s = (d, f, omega arith)
exhausted_is_sent_forever endpoint saves (suc n) id d q f one few h m b r s =
    let v = (dispatch_once endpoint saves q).0 in
    let found = dispatch_once-fails endpoint saves id r s d q f one few h m (omega (arith, b)) in
    let (rows, size, now) = dispatch_once-keeps endpoint saves id r s q in
    let hooks = dispatch_once-webhooks endpoint saves q in
    let due : is_due v.webhooks (v.now + 5000000000) (again q.now d) ≡ true =
      rw (hooks) (ground (arith, h, now)) in
    let (e, last, count) =
      exhausted_is_sent_forever endpoint saves n id (again q.now d)
        (record v { now = v.now + 5000000000 }) found (omega (arith, one, rows))
        (omega (arith, few, size)) due (omega (arith, m)) (omega (arith, b)) r s in
    (e, last, omega (arith, count))
