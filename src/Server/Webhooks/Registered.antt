-- ===== src/Server/Webhooks/Registered.antt =====
-- Every webhook of the table is one that a request may register: internal/webhooks/service.go.
use iaas_platform.Base.{
  ℕ, ◌≡◌, true, false, refl, ◌∙◌, inl, inr, Bool, Option, some, List, [], ◌∷◌, ◌++◌, All, ◌==◌,
  arith, Bool-cases,
}
use iaas_platform.Base.Text.{Text}
use iaas_platform.Server.Webhooks.{
  Queue, Webhook, WebhookDelivery, subscribed, create_deliveries, emit, list_due,
}
use iaas_platform.Server.Webhooks.Events.{Url}
use iaas_platform.Server.Webhooks.Service.{
  ok, find_webhook, update_webhook, delete_webhook, remove_webhook, create_single_delivery,
}
use iaas_platform.Server.Webhooks.Turns.{Reach, here, asks, emits, dispatches, waits}
use iaas_platform.Server.Webhooks.Checked.{
  Registered, Revised, validated-Subscription, changed-Revised,
}
use iaas_platform.Server.Webhooks.Effects.{
  Effect, nothing, adds, stores, removes, sends, serve-Effect,
}
use iaas_platform.Server.Webhooks.Dispatcher.{
  Answer, fail, deliver_one, deliver_all, dispatch_once, dispatch_limit,
}

create_deliveries-webhooks :
    (org : ℕ) (event : Text) (l : List Webhook) (q : Queue)
    → (create_deliveries org event l q).webhooks ≡ q.webhooks
unfolding create_deliveries
create_deliveries-webhooks org event [] q = refl
create_deliveries-webhooks org event (h ∷ l) q = elim (Bool-cases (subscribed org event h)) [
  | inl s ↦ simp s (create_deliveries-webhooks org event l _)
  | inr s ↦ simp s (create_deliveries-webhooks org event l q)
]

pub emit-webhooks :
    (fails : Bool) (org : ℕ) (event : Text) (q : Queue)
    → (emit fails org event q).webhooks ≡ q.webhooks
unfolding emit
emit-webhooks true org event q = refl
emit-webhooks false org event q = create_deliveries-webhooks org event q.webhooks q

deliver_one-webhooks :
    (endpoint : WebhookDelivery → Answer) (saves : ℕ → Bool) (d : WebhookDelivery) (q : Queue)
    → (deliver_one endpoint saves d q).webhooks ≡ q.webhooks
unfolding deliver_one fail
deliver_one-webhooks endpoint saves d q = ground arith

deliver_all-webhooks :
    (endpoint : WebhookDelivery → Answer) (saves : ℕ → Bool) (l : List WebhookDelivery) (q : Queue)
    → (deliver_all endpoint saves l q).webhooks ≡ q.webhooks
unfolding deliver_all
deliver_all-webhooks endpoint saves [] q = refl
deliver_all-webhooks endpoint saves (d ∷ l) q =
    deliver_all-webhooks endpoint saves l (deliver_one endpoint saves d q)
    ∙ deliver_one-webhooks endpoint saves d q

pub dispatch_once-webhooks :
    (endpoint : WebhookDelivery → Answer) (saves : ℕ → Bool) (q : Queue)
    → (dispatch_once endpoint saves q).0.webhooks ≡ q.webhooks
unfolding dispatch_once
dispatch_once-webhooks endpoint saves q =
    deliver_all-webhooks endpoint saves (list_due dispatch_limit q) q

module _ {ℓ} (P : Webhook → Type ℓ) where
  All-append : (l : List Webhook) (h : Webhook) → All P l → P h → All P (l ++ (h ∷ []))
  All-append [] h a b = (b, tt)
  All-append (k ∷ l) h (p, a) b = (p, All-append l h a b)

  All-find : (id : ℕ) (l : List Webhook) (h : Webhook) → All P l → find_webhook id l ≡ some h → P h
  unfolding find_webhook
  All-find id [] h a e = ground (arith, e)
  All-find id (k ∷ l) h (p, a) e = elim (Bool-cases (k.id == id)) [
    | inl c ↦ let t : h ≡ k = ground (arith, c, e) in rw t p
    | inr c ↦ All-find id l h a (ground (arith, c, e))
  ]

  All-update_webhook : (h : Webhook) (l : List Webhook) → All P l → P h → All P (update_webhook h l)
  unfolding update_webhook
  All-update_webhook h [] a b = tt
  All-update_webhook h (k ∷ l) (p, a) b = elim (Bool-cases (k.id == h.id)) [
    | inl c ↦ simp c (b, a)
    | inr c ↦ simp c (p, All-update_webhook h l a b)
  ]

  All-delete_webhook : (id : ℕ) (l : List Webhook) → All P l → All P (delete_webhook id l)
  unfolding delete_webhook
  All-delete_webhook id [] a = tt
  All-delete_webhook id (k ∷ l) (p, a) = elim (Bool-cases (k.id == id)) [
    | inl c ↦ simp c a
    | inr c ↦ simp c (p, All-delete_webhook id l a)
  ]

abbrev AllRegistered : (Text → Option Url) → Queue → Type 0
AllRegistered parse q = All (Registered parse) q.webhooks

Effect-AllRegistered :
    (parse : Text → Option Url) (org : ℕ) {q v : Queue}
    → Effect parse org q v
    → AllRegistered parse q
    → AllRegistered parse v
unfolding remove_webhook create_single_delivery
Effect-AllRegistered parse org nothing a = a
Effect-AllRegistered parse org {q} (adds url secret l v e w d) a =
    let (b, c) = validated-Subscription parse url l e in
    rw w (All-append (Registered parse) q.webhooks _ a (record { url = b; events = c }))
Effect-AllRegistered parse org {q} (stores id h k r o e) a =
    let (b, _, _) : Revised parse h (ok k) = simp e at (changed-Revised parse r h) in
    All-update_webhook (Registered parse) k q.webhooks a
      (b (All-find (Registered parse) id q.webhooks h a o.stored))
Effect-AllRegistered parse org {q} (removes id h o) a =
    All-delete_webhook (Registered parse) id q.webhooks a
Effect-AllRegistered parse org {q} (sends id h o) a = a

-- Along every sequence of requests to any organizations by any callers, of events, passes of the
-- dispatcher and delays, one after the other and whichever calls fail: where every webhook of the
-- table has an absolute URL of the scheme http or https and at least one event, each event one of
-- `AllEvents` and none named twice, every webhook of the table has them afterwards, whatever
-- `url.Parse` makes of the texts.
pub webhooks_stay_well_formed :
    (parse : Text → Option Url) {q v : Queue}
    → All (Registered parse) q.webhooks
    → Reach parse q v
    → All (Registered parse) v.webhooks
webhooks_stay_well_formed parse a here = a
webhooks_stay_well_formed parse a (asks {p} r f m org t) =
    Effect-AllRegistered parse org (serve-Effect parse org p f m t)
      (webhooks_stay_well_formed parse a r)
webhooks_stay_well_formed parse a (emits {p} r fails org event) =
    rw (emit-webhooks fails org event p) (webhooks_stay_well_formed parse a r)
webhooks_stay_well_formed parse a (dispatches {p} r endpoint saves) =
    rw (dispatch_once-webhooks endpoint saves p) (webhooks_stay_well_formed parse a r)
webhooks_stay_well_formed parse a (waits r ns) = webhooks_stay_well_formed parse a r
