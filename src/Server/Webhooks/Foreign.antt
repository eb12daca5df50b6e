-- ===== src/Server/Webhooks/Foreign.antt =====
-- Requests to one organization and the webhooks of the others: internal/webhooks/service.go.
use iaas_platform.Base.{
  ℕ, ◌≡◌, refl, inl, inr, false, not, Option, some, List, [], ◌∷◌, ◌++◌, keep, ◌==◌, arith,
  Bool-cases,
}
use iaas_platform.Base.Text.{Text}
use iaas_platform.Server.{Lookup}
use iaas_platform.Server.Webhooks.{Queue, Webhook, WebhookDelivery, enqueued}
use iaas_platform.Server.Webhooks.Events.{Url, event_ping}
use iaas_platform.Server.Webhooks.Service.{
  Faults, ok, find_webhook, update_webhook, delete_webhook, remove_webhook, create_single_delivery,
}
use iaas_platform.Server.Webhooks.Turns.{Turn, serve}
use iaas_platform.Server.Webhooks.Checked.{Revised, changed-Revised}
use iaas_platform.Server.Webhooks.Effects.{
  Effect, Owned, nothing, adds, stores, removes, sends, serve-Effect,
}

-- The deliveries to the webhook, in their order.
unfoldable pub sent_to : ℕ → List WebhookDelivery → List WebhookDelivery
sent_to id l = keep (λ (d : WebhookDelivery). d.webhook_id == id) l

find_webhook-append :
    (id : ℕ) (l : List Webhook) (h g : Webhook)
    → find_webhook id l ≡ some g
    → find_webhook id (l ++ (h ∷ [])) ≡ some g
unfolding find_webhook
find_webhook-append id [] h g e = ground (arith, e)
find_webhook-append id (k ∷ l) h g e = ground (arith, e, find_webhook-append id l h g)

find_webhook-id : (id : ℕ) (l : List Webhook) (g : Webhook) → find_webhook id l ≡ some g → g.id ≡ id
unfolding find_webhook
find_webhook-id id [] g e = ground (arith, e)
find_webhook-id id (k ∷ l) g e = ground (arith, e, find_webhook-id id l g)

find_webhook-update_webhook :
    (id : ℕ) (k : Webhook) (l : List Webhook)
    → (k.id == id) ≡ false
    → find_webhook id (update_webhook k l) ≡ find_webhook id l
unfolding find_webhook update_webhook
find_webhook-update_webhook id k [] n = refl
find_webhook-update_webhook id k (h ∷ l) n = ground (arith, n, find_webhook-update_webhook id k l n)

find_webhook-delete_webhook :
    (id id' : ℕ) (l : List Webhook)
    → (id' == id) ≡ false
    → find_webhook id (delete_webhook id' l) ≡ find_webhook id l
unfolding find_webhook delete_webhook
find_webhook-delete_webhook id id' [] n = refl
find_webhook-delete_webhook id id' (h ∷ l) n =
    ground (arith, n, find_webhook-delete_webhook id id' l n)

sent_to-append :
    (id : ℕ) (l : List WebhookDelivery) (d : WebhookDelivery)
    → (d.webhook_id == id) ≡ false
    → sent_to id (l ++ (d ∷ [])) ≡ sent_to id l
unfolding sent_to
sent_to-append id [] d n = ground (arith, n)
sent_to-append id (e ∷ l) d n = ground (arith, sent_to-append id l d n)

sent_to-keep :
    (id id' : ℕ) (l : List WebhookDelivery)
    → (id' == id) ≡ false
    → sent_to id (keep (λ (d : WebhookDelivery). not (d.webhook_id == id')) l) ≡ sent_to id l
unfolding sent_to
sent_to-keep id id' [] n = refl
sent_to-keep id id' (d ∷ l) n = ground (arith, n, sent_to-keep id id' l n)

-- The row of another organization has another key.
other_key :
    (org id id' : ℕ) (q : Queue) (g h : Webhook)
    → find_webhook id q.webhooks ≡ some g
    → (g.organization_id == org) ≡ false
    → Owned org id' q h
    → (id' == id) ≡ false
other_key org id id' q g h e n o = elim (Bool-cases (id' == id)) [
  | inr c ↦ c
  | inl c ↦
      let s : id' ≡ id = ground (arith, c) in
      let t : find_webhook id q.webhooks ≡ some h = simp s at o.stored in
      ground (arith, n, e, t, o.owner)
]

-- The webhook with the key `id` is stored as `g`, and its deliveries are those of `q`.
pub record Untouched (id : ℕ) (g : Webhook) (q v : Queue) : Type 0 where
  pub row : find_webhook id v.webhooks ≡ some g
  pub deliveries : sent_to id v.deliveries ≡ sent_to id q.deliveries

Effect-Untouched :
    (parse : Text → Option Url) (org id : ℕ) (g : Webhook) {q v : Queue}
    → find_webhook id q.webhooks ≡ some g
    → (g.organization_id == org) ≡ false
    → Effect parse org q v
    → Untouched id g q v
unfolding remove_webhook create_single_delivery
Effect-Untouched parse org id g e n nothing = record { row = e; deliveries = refl }
Effect-Untouched parse org id g {q} e n (adds url secret l v c w d) = record {
  row = rw w (find_webhook-append id q.webhooks _ g e);
  deliveries = rw d refl;
}
Effect-Untouched parse org id g {q} e n (stores id' h k r o c) =
    let (_, s, _) : Revised parse h (ok k) = simp c at (changed-Revised parse r h) in
    let t = find_webhook-id id' q.webhooks h o.stored in
    let u = other_key org id id' q g h e n o in
    record {
      row = rw (find_webhook-update_webhook id k q.webhooks (ground (arith, s, t, u))) e;
      deliveries = refl;
    }
Effect-Untouched parse org id g {q} e n (removes id' h o) =
    let u = other_key org id id' q g h e n o in
    record {
      row = rw (find_webhook-delete_webhook id id' q.webhooks u) e;
      deliveries = sent_to-keep id id' q.deliveries u;
    }
Effect-Untouched parse org id g {q} e n (sends id' h o) =
    let t = find_webhook-id id' q.webhooks h o.stored in
    let u = other_key org id id' q g h e n o in
    record {
      row = e;
      deliveries =
          sent_to-append id q.deliveries (enqueued q.now q.next_id event_ping h)
            (ground (arith, t, u));
    }

-- A request to one organization, whoever asks it and whichever calls fail, leaves the webhooks of the
-- other organizations and the deliveries to them as they are, also where it names the key of such a
-- webhook.
pub others_unaffected :
    (f : Faults) (parse : Text → Option Url) (m : Lookup Text) (org : ℕ) (t : Turn) (q : Queue)
    (id : ℕ) (g : Webhook)
    → find_webhook id q.webhooks ≡ some g
    → (g.organization_id == org) ≡ false
    → Untouched id g q (serve f parse m org t q)
others_unaffected f parse m org t q id g e n =
    Effect-Untouched parse org id g e n (serve-Effect parse org q f m t)
