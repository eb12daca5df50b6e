-- ===== src/Server/Webhooks/Effects.antt =====
-- What each request does to the tables of the webhooks: internal/webhooks/service.go.
use iaas_platform.Base.{
  ℕ, ◌≡◌, refl, ◌⊎◌, inl, inr, Option, none, some, List, [], ◌∷◌, ◌++◌, ◌==◌, arith, Bool-cases,
  Option-cases,
}
use iaas_platform.Base.Text.{Text, lit, text_eq}
use iaas_platform.Server.{Lookup, found, missing, broken}
use iaas_platform.Server.Webhooks.{Queue, Webhook}
use iaas_platform.Server.Webhooks.Events.{
  Url, Error, event_ping, normalize_events, validate_request,
}
use iaas_platform.Server.Webhooks.Service.{
  Faults, Result, ok, refused, CreateWebhookRequest, UpdateWebhookRequest, for_admin, for_owned,
  find_webhook, require_owned, secret_of, new_webhook, store_webhook, create, update_webhook,
  changed, save_webhook, update, remove_webhook, delete, create_single_delivery, ping,
}
use iaas_platform.Server.Webhooks.Turns.{Turn, creates, updates, deletes, pings, serve}

-- The row of the organization with this key.
pub record Owned (org id : ℕ) (q : Queue) (h : Webhook) : Type 0 where
  pub stored : find_webhook id q.webhooks ≡ some h
  pub owner : h.organization_id ≡ org

-- What a request to the organization comes to.
pub data Effect (parse : Text → Option Url) (org : ℕ) (q : Queue) : Queue → Type 0 where
  nothing : Effect parse org q q
  adds :
      (url secret : Text) (l : List Text) (v : Queue)
      → validate_request parse url (normalize_events l) ≡ none
      → v.webhooks
        ≡ q.webhooks ++ (new_webhook q.next_webhook org url secret (normalize_events l) ∷ [])
      → v.deliveries ≡ q.deliveries
      → Effect parse org q v
  stores :
      (id : ℕ) (h k : Webhook) (r : UpdateWebhookRequest)
      → Owned org id q h
      → changed parse r h ≡ ok k
      → Effect parse org q (record q { webhooks = update_webhook k q.webhooks })
  removes : (id : ℕ) (h : Webhook) → Owned org id q h → Effect parse org q (remove_webhook id q)
  sends :
      (id : ℕ) (h : Webhook)
      → Owned org id q h
      → Effect parse org q (create_single_delivery event_ping h q)

Result-cases :
    {A : Type 0} → (x : Result A) → ((e : Error) × (x ≡ refused e)) ⊎ ((a : A) × (x ≡ ok a))
Result-cases (refused e) = inl (e, refl)
Result-cases (ok a) = inr (a, refl)

module _ (parse : Text → Option Url) (org : ℕ) (q : Queue) where
  for_admin-Effect :
      {A : Type 0}
      → (m : Lookup Text) (k : Queue × Result A) → Effect parse org q k.0
      → Effect parse org q (for_admin m q k).0
  for_admin-Effect missing k e = nothing
  for_admin-Effect broken k e = nothing
  for_admin-Effect (found role) k e = elim (Bool-cases (text_eq role (lit "admin"))) [
    | inl a ↦ simp a e
    | inr a ↦ simp a nothing
  ]

  for_owned-Effect :
      {A : Type 0}
      → (f : Faults) (id : ℕ) (k : Webhook → Queue × Result A)
      → ((h : Webhook) → Owned org id q h → Effect parse org q (k h).0)
      → Effect parse org q (for_owned (require_owned f org id q) q k).0
  unfolding require_owned
  for_owned-Effect f id k e = elim (Bool-cases f.find) [
    | inl a ↦ simp (a, require_owned) nothing
    | inr a ↦ elim (Option-cases (find_webhook id q.webhooks)) [
      | inl b ↦ simp (a, b, require_owned) nothing
      | inr (h, b) ↦ elim (Bool-cases (h.organization_id == org)) [
        | inr c ↦ simp (a, b, c, require_owned) nothing
        | inl c ↦
            simp (a, b, c, require_owned) (e h (record { stored = b; owner = ground (arith, c) }))
      ]
    ]
  ]

  create-Effect :
      (f : Faults) (generated : Option Text) (m : Lookup Text) (r : CreateWebhookRequest)
      → Effect parse org q (create f parse generated m org r q).0
  unfolding create store_webhook
  create-Effect f generated m r =
      for_admin-Effect m _
        (elim (Option-cases (validate_request parse r.url (normalize_events r.events))) [
          | inr (x, a) ↦ simp a nothing
          | inl a ↦ elim (Option-cases (secret_of r.secret generated)) [
            | inl b ↦ simp (a, b) nothing
            | inr (s, b) ↦ elim (Bool-cases f.create) [
              | inl c ↦ simp (a, b, c, store_webhook) nothing
              | inr c ↦ simp (a, b, c, store_webhook) (adds r.url s r.events _ a refl refl)
            ]
          ]
        ])

  update-Effect :
      (f : Faults) (m : Lookup Text) (id : ℕ) (r : UpdateWebhookRequest)
      → Effect parse org q (update f parse m org id r q).0
  unfolding update save_webhook
  update-Effect f m id r = for_admin-Effect m _ (
      for_owned-Effect f id _ (λ h o. elim (Result-cases (changed parse r h)) [
        | inl (x, a) ↦ simp (a, save_webhook) nothing
        | inr (k, a) ↦ elim (Bool-cases f.update) [
          | inl b ↦ simp (a, b, save_webhook) nothing
          | inr b ↦ simp (a, b, save_webhook) (stores id h k r o a)
        ]
      ]))

  delete-Effect :
      (f : Faults) (m : Lookup Text) (id : ℕ) → Effect parse org q (delete f m org id q).0
  unfolding delete
  delete-Effect f m id = for_admin-Effect m _ (
      for_owned-Effect f id _ (λ h o. elim (Bool-cases f.delete) [
        | inl b ↦ simp b nothing
        | inr b ↦ simp b (removes id h o)
      ]))

  ping-Effect : (f : Faults) (m : Lookup Text) (id : ℕ) → Effect parse org q (ping f m org id q).0
  unfolding ping
  ping-Effect f m id = for_admin-Effect m _ (
      for_owned-Effect f id _ (λ h o. elim (Bool-cases f.deliver) [
        | inl b ↦ simp b nothing
        | inr b ↦ simp b (sends id h o)
      ]))

  pub serve-Effect :
      (f : Faults) (m : Lookup Text) (t : Turn) → Effect parse org q (serve f parse m org t q)
  unfolding serve
  serve-Effect f m (creates generated r) = create-Effect f generated m r
  serve-Effect f m (updates id r) = update-Effect f m id r
  serve-Effect f m (deletes id) = delete-Effect f m id
  serve-Effect f m (pings id) = ping-Effect f m id
