-- ===== src/Server/Webhooks/Due.antt =====
-- What a pass of the dispatcher does to the queue: internal/webhooks/dispatcher.go.
use iaas_platform.Base.{
  ℕ, zero, suc, ◌≡◌, refl, ◌∙◌, inl, inr, Bool, true, false, not, ◌&&◌, Option, List, [], ◌∷◌, any,
  find, keep, take, leb, ◌==◌, arith, Bool-cases,
}
use iaas_platform.Server.Webhooks.{
  Queue, Webhook, WebhookDelivery, DeliveryStatus, delivered, is_due, sort_due, insert_due,
  list_due, update_delivery, failed_attempt,
}
use iaas_platform.Server.Webhooks.Dispatcher.{
  Answer, accepted, fail, deliver_one, deliver_all, dispatch_once, dispatch_limit,
}

unfoldable pub find_delivery : ℕ → List WebhookDelivery → Option WebhookDelivery
find_delivery id l = find (λ (d : WebhookDelivery). d.id == id) l

pub failed_attempt-id :
    (s : DeliveryStatus) (at : ℕ) (d : WebhookDelivery) → (failed_attempt s at d).id ≡ d.id
failed_attempt-id s at d = ground arith

update_delivery-other :
    (id id' : ℕ) (g : WebhookDelivery → WebhookDelivery) (l : List WebhookDelivery)
    → ((d : WebhookDelivery) → (g d).id ≡ d.id)
    → (id' == id) ≡ false
    → find_delivery id (update_delivery id' g l) ≡ find_delivery id l
unfolding find_delivery update_delivery
update_delivery-other id id' g [] k n = refl
update_delivery-other id id' g (d ∷ l) k n =
    ground (arith, k d, update_delivery-other id id' g l k n)

pub deliver_one-other :
    (endpoint : WebhookDelivery → Answer) (saves : ℕ → Bool) (d : WebhookDelivery) (q : Queue)
    (id : ℕ)
    → (d.id == id) ≡ false
    → find_delivery id (deliver_one endpoint saves d q).deliveries ≡ find_delivery id q.deliveries
unfolding deliver_one fail
deliver_one-other endpoint saves d q id n = elim (Bool-cases (saves d.id)) [
  | inr s ↦ rw (s, deliver_one) refl
  | inl s ↦ elim (Bool-cases (accepted (endpoint d))) [
    | inl a ↦ rw (s, a, deliver_one) (update_delivery-other id d.id _ q.deliveries (λ e. refl) n)
    | inr a ↦ elim (Bool-cases (leb d.max_attempts (suc d.attempts))) [
      | inl m ↦
          rw (s, a, m, deliver_one, fail)
            (update_delivery-other id d.id _ q.deliveries (failed_attempt-id _ _) n)
      | inr m ↦
          rw (s, a, m, deliver_one, fail)
            (update_delivery-other id d.id _ q.deliveries (failed_attempt-id _ _) n)
    ]
  ]
]

abbrev No : (WebhookDelivery → Bool) → List WebhookDelivery → Type 0
No p l = any p l ≡ false

pub deliver_all-other :
    (endpoint : WebhookDelivery → Answer) (saves : ℕ → Bool) (l : List WebhookDelivery) (q : Queue)
    (id : ℕ)
    → No (λ d. d.id == id) l
    → find_delivery id (deliver_all endpoint saves l q).deliveries ≡ find_delivery id q.deliveries
unfolding deliver_all
deliver_all-other endpoint saves [] q id n = refl
deliver_all-other endpoint saves (d ∷ l) q id n =
    deliver_all-other endpoint saves l (deliver_one endpoint saves d q) id (ground arith)
    ∙ deliver_one-other endpoint saves d q id (ground arith)

insert_due-any :
    (p : WebhookDelivery → Bool) (d : WebhookDelivery) (l : List WebhookDelivery)
    → No p (d ∷ l)
    → No p (insert_due d l)
unfolding insert_due
insert_due-any p d [] n = n
insert_due-any p d (e ∷ l) n = ground (arith, insert_due-any p d l)

sort_due-any : (p : WebhookDelivery → Bool) (l : List WebhookDelivery) → No p l → No p (sort_due l)
unfolding sort_due
sort_due-any p [] n = n
sort_due-any p (d ∷ l) n = insert_due-any p d (sort_due l) (ground (arith, sort_due-any p l))

take-any :
    (p : WebhookDelivery → Bool) (n : ℕ) (l : List WebhookDelivery) → No p l → No p (take n l)
take-any p zero l h = refl
take-any p (suc n) [] h = refl
take-any p (suc n) (d ∷ l) h = ground (arith, take-any p n l)

keep-any :
    (p r : WebhookDelivery → Bool) (l : List WebhookDelivery)
    → No (λ d. p d && r d) l
    → No p (keep r l)
keep-any p r [] n = refl
keep-any p r (d ∷ l) n = ground (arith, keep-any p r l)

abbrev is_delivered : DeliveryStatus → Bool
is_delivered s = elim s [ delivered ↦ true | _ ↦ false ]

-- A delivery of an active webhook that was not delivered, at its time.
abbrev pub due_now : List Webhook → ℕ → WebhookDelivery → Bool
due_now hooks now d =
    any (λ (h : Webhook). h.id == d.webhook_id && h.active) hooks
    && (not (is_delivered d.status) && leb d.next_attempt_at now)

any-due :
    (same : WebhookDelivery → Bool) (q : Queue)
    → any (λ (d : WebhookDelivery). same d && due_now q.webhooks q.now d) q.deliveries ≡ false
    → any (λ (d : WebhookDelivery). same d && is_due q.webhooks q.now d) q.deliveries ≡ false
any-due same q n = along q.deliveries n
  where
    along :
        (l : List WebhookDelivery)
        → any (λ (d : WebhookDelivery). same d && due_now q.webhooks q.now d) l ≡ false
        → any (λ (d : WebhookDelivery). same d && is_due q.webhooks q.now d) l ≡ false
    along [] h = refl
    along (d ∷ l) h = ground (arith, along l)

-- A pass of the dispatcher touches only deliveries that are due: the row of a key under which no row
-- is due stays as it is, whatever the endpoints answer and whichever updates fail. So a delivered row
-- is never sent again, and neither is one before its time or one of a webhook that is not active.
pub only_due_are_sent :
    (endpoint : WebhookDelivery → Answer) (saves : ℕ → Bool) (id : ℕ) (q : Queue)
    → any (λ (d : WebhookDelivery). d.id == id && due_now q.webhooks q.now d) q.deliveries ≡ false
    → find_delivery id (dispatch_once endpoint saves q).0.deliveries ≡ find_delivery id q.deliveries
unfolding dispatch_once list_due
only_due_are_sent endpoint saves id q n =
    let same = λ (d : WebhookDelivery). d.id == id in
    let due = keep-any same (is_due q.webhooks q.now) q.deliveries (any-due same q n) in
    deliver_all-other endpoint saves _ q id
      (take-any same dispatch_limit _ (sort_due-any same _ due))
