-- ===== src/Server/Webhooks/Emitted.antt =====
-- From an event to its deliveries: `Emit` and `DispatchOnce` of internal/webhooks.
use iaas_platform.Base.{
  ℕ, suc, ◌≤◌, ◌≡◌, refl, ap, ◌∙◌, inl, inr, Bool, true, false, ◌&&◌, some, List, [], ◌∷◌, ◌++◌,
  any, keep, length, leb, ◌==◌, arith, Bool-cases,
}
use iaas_platform.Base.Text.{Text}
use mathlib.Core.Option.{some-injective}
use iaas_platform.Server.Webhooks.{
  Queue, Webhook, WebhookDelivery, subscribed, enqueued, create_deliveries, emit, is_due,
}
use iaas_platform.Server.Webhooks.Service.{find_webhook}
use iaas_platform.Server.Webhooks.Dispatcher.{Answer, accepted, dispatch_once}
use iaas_platform.Server.Webhooks.Due.{find_delivery}
use iaas_platform.Server.Webhooks.Registered.{emit-webhooks}
use iaas_platform.Server.Webhooks.Prompt.{as_delivered, due_is_delivered}

find_delivery-append :
    (id : ℕ) (d : WebhookDelivery) (l r : List WebhookDelivery)
    → find_delivery id l ≡ some d
    → find_delivery id (l ++ r) ≡ some d
unfolding find_delivery
find_delivery-append id d [] r f = ground arith
find_delivery-append id d (e ∷ l) r f = ground (arith, f, find_delivery-append id d l r)

find_delivery-last :
    (next : ℕ) (d : WebhookDelivery) (l : List WebhookDelivery)
    → d.id ≡ next
    → any (λ (e : WebhookDelivery). leb next e.id) l ≡ false
    → find_delivery next (l ++ (d ∷ [])) ≡ some d
unfolding find_delivery
find_delivery-last next d [] k n = ground (arith, k)
find_delivery-last next d (e ∷ l) k n = ground (arith, n, find_delivery-last next d l k)

later_key-append :
    (next : ℕ) (d : WebhookDelivery) (l : List WebhookDelivery)
    → d.id ≡ next
    → any (λ (e : WebhookDelivery). leb next e.id) l ≡ false
    → any (λ (e : WebhookDelivery). leb (suc next) e.id) (l ++ (d ∷ [])) ≡ false
later_key-append next d [] k n = ground (arith, k)
later_key-append next d (e ∷ l) k n = ground (arith, n, later_key-append next d l k)

-- The tables with one row more.
abbrev with_row : Text → Webhook → Queue → Queue
with_row event h q = record q {
  deliveries = q.deliveries ++ (enqueued q.now q.next_id event h ∷ []);
  next_id = suc q.next_id;
}

create_deliveries-keeps :
    (org : ℕ) (event : Text) (l : List Webhook) (q : Queue) (id : ℕ) (d : WebhookDelivery)
    → find_delivery id q.deliveries ≡ some d
    → find_delivery id (create_deliveries org event l q).deliveries ≡ some d
unfolding create_deliveries
create_deliveries-keeps org event [] q id d f = f
create_deliveries-keeps org event (h ∷ l) q id d f = elim (Bool-cases (subscribed org event h)) [
  | inl s ↦ rw (s) (
      create_deliveries-keeps org event l (with_row event h q) id d
        (find_delivery-append id d q.deliveries _ f))
  | inr s ↦ rw (s) (create_deliveries-keeps org event l q id d f)
]

create_deliveries-now :
    (org : ℕ) (event : Text) (l : List Webhook) (q : Queue)
    → (create_deliveries org event l q).now ≡ q.now
unfolding create_deliveries
create_deliveries-now org event [] q = refl
create_deliveries-now org event (h ∷ l) q = elim (Bool-cases (subscribed org event h)) [
  | inl s ↦ simp s (create_deliveries-now org event l (with_row event h q))
  | inr s ↦ simp s (create_deliveries-now org event l q)
]

-- The row that an event makes for a webhook, under a key that was still to be given out.
abbrev Enqueued : Text → Webhook → Queue → Queue → Type 0
Enqueued event h q v =
    (k : ℕ) × (q.next_id ≤ k) × (find_delivery k v.deliveries ≡ some (enqueued q.now k event h))

create_deliveries-Enqueued :
    (org : ℕ) (event : Text) (h : Webhook) (l : List Webhook) (q : Queue)
    → find_webhook h.id l ≡ some h
    → subscribed org event h ≡ true
    → any (λ (e : WebhookDelivery). leb q.next_id e.id) q.deliveries ≡ false
    → Enqueued event h q (create_deliveries org event l q)
unfolding create_deliveries find_webhook
create_deliveries-Enqueued org event h [] q f s n = ground arith
create_deliveries-Enqueued org event h (x ∷ l) q f s n = elim (Bool-cases (x.id == h.id)) [
  | inl k ↦
      let same : x ≡ h = some-injective x h (ground (arith, f, k)) in
      let t : subscribed org event x ≡ true = ap (subscribed org event) same ∙ s in
      let row = enqueued q.now q.next_id event x in
      let last = find_delivery-last q.next_id row q.deliveries refl n in
      (
        q.next_id,
        omega arith,
        rw (t) (
            create_deliveries-keeps org event l (with_row event x q) q.next_id row last
            ∙ ap (λ y. some (enqueued q.now q.next_id event y)) same),
      )
  | inr k ↦
      let rest : find_webhook h.id l ≡ some h = ground (arith, f, k) in
      elim (Bool-cases (subscribed org event x)) [
        | inl t ↦
            let row = enqueued q.now q.next_id event x in
            let free = later_key-append q.next_id row q.deliveries refl n in
            let (id, above, found) =
              create_deliveries-Enqueued org event h l (with_row event x q) rest s free in
            (id, omega (arith, above), rw (t) found)
        | inr t ↦
            let (id, above, found) = create_deliveries-Enqueued org event h l q rest s n in
            (id, above, rw (t) found)
      ]
]

find_webhook-active :
    (h : Webhook) (l : List Webhook)
    → find_webhook h.id l ≡ some h
    → h.active ≡ true
    → any (λ (x : Webhook). x.id == h.id && x.active) l ≡ true
unfolding find_webhook
find_webhook-active h [] f a = ground arith
find_webhook-active h (x ∷ l) f a = elim (Bool-cases (x.id == h.id)) [
  | inl k ↦
      let same : x ≡ h = some-injective x h (ground (arith, f, k)) in
      let active : x.active ≡ true = ap (λ (y : Webhook). y.active) same ∙ a in
      ground (arith, k, active)
  | inr k ↦
      let rest : find_webhook h.id l ≡ some h = ground (arith, f, k) in
      ground (arith, k, find_webhook-active h l rest a)
]

emit-due :
    (org : ℕ) (event : Text) (h : Webhook) (q : Queue) (k : ℕ)
    → find_webhook h.id q.webhooks ≡ some h
    → subscribed org event h ≡ true
    → is_due
        (emit false org event q).webhooks
        (emit false org event q).now
        (enqueued q.now k event h)
      ≡ true
unfolding emit
emit-due org event h q k f s =
    let active : h.active ≡ true = ground (arith, s) in
    let hooks = find_webhook-active h q.webhooks f active in
    let due : is_due q.webhooks q.now (enqueued q.now k event h) ≡ true = ground (arith, hooks) in
    rw (emit-webhooks false org event q, create_deliveries-now org event q.webhooks q) due

-- An event makes a row for each active webhook of the organization that has it, under a key of its
-- own, and the pass of the dispatcher at that time delivers the row where no more than 50 rows are
-- due, the new ones are accepted by their endpoints and the updates of these rows succeed, whatever
-- the endpoints answer to the others and whichever of the other updates fail.
pub emitted_is_delivered :
    (endpoint : WebhookDelivery → Answer) (saves : ℕ → Bool) (org : ℕ) (event : Text) (h : Webhook)
    (q : Queue)
    → find_webhook h.id q.webhooks ≡ some h
    → subscribed org event h ≡ true
    → any (λ (e : WebhookDelivery). leb q.next_id e.id) q.deliveries ≡ false
    → length (
        keep
          (λ (e : WebhookDelivery).
            is_due (emit false org event q).webhooks (emit false org event q).now e)
          (emit false org event q).deliveries)
      ≤ 50
    → ((e : WebhookDelivery) → q.next_id ≤ e.id → accepted (endpoint e) ≡ true)
    → ((k : ℕ) → q.next_id ≤ k → saves k ≡ true)
    → (k : ℕ) × (q.next_id ≤ k)
      × (find_delivery k (dispatch_once endpoint saves (emit false org event q)).0.deliveries
          ≡ some (as_delivered (enqueued q.now k event h)))
unfolding emit
emitted_is_delivered endpoint saves org event h q f s n few a v =
    let (k, above, found) = create_deliveries-Enqueued org event h q.webhooks q f s n in
    (
      k,
      above,
      due_is_delivered endpoint saves k (enqueued q.now k event h) (emit false org event q) found
          (emit-due org event h q k f s) few (λ e same. a e (ground (arith, above, same)))
          (v k above),
    )
