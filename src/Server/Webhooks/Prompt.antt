-- ===== src/Server/Webhooks/Prompt.antt =====
-- What a pass of the dispatcher delivers: internal/webhooks/dispatcher.go.
use iaas_platform.Base.{
  ℕ, zero, suc, ◌≤◌, ◌≡◌, refl, ap, ◌∙◌, inl, inr, Bool, true, some, List, [], ◌∷◌, any, keep, take,
  length, ◌==◌, arith, Bool-cases,
}
use iaas_platform.Server.Webhooks.{
  Queue, WebhookDelivery, delivered, is_due, sort_due, insert_due, list_due,
}
use iaas_platform.Server.Webhooks.Dispatcher.{
  Answer, accepted, deliver_one, deliver_all, dispatch_once, dispatch_limit,
}
use iaas_platform.Server.Webhooks.Due.{find_delivery, deliver_one-other}
use iaas_platform.Server.Webhooks.Retries.{find-update_delivery}

abbrev pub has_key : ℕ → List WebhookDelivery → Bool
has_key id l = any (λ (d : WebhookDelivery). d.id == id) l

-- The row as `MarkDelivered` leaves it.
abbrev pub as_delivered : WebhookDelivery → WebhookDelivery
as_delivered d = record d { status = delivered }

find_delivery-keep :
    (p : WebhookDelivery → Bool) (id : ℕ) (d : WebhookDelivery) (l : List WebhookDelivery)
    → find_delivery id l ≡ some d
    → p d ≡ true
    → has_key id (keep p l) ≡ true
unfolding find_delivery
find_delivery-keep p id d [] f h = ground arith
find_delivery-keep p id d (e ∷ l) f h = ground (arith, f, h, find_delivery-keep p id d l)

insert_due-has_key :
    (id : ℕ) (d : WebhookDelivery) (l : List WebhookDelivery)
    → has_key id (d ∷ l) ≡ true
    → has_key id (insert_due d l) ≡ true
unfolding insert_due
insert_due-has_key id d [] h = h
insert_due-has_key id d (e ∷ l) h = ground (arith, h, insert_due-has_key id d l)

sort_due-has_key :
    (id : ℕ) (l : List WebhookDelivery) → has_key id l ≡ true → has_key id (sort_due l) ≡ true
unfolding sort_due
sort_due-has_key id [] h = h
sort_due-has_key id (d ∷ l) h =
    insert_due-has_key id d (sort_due l) (ground (arith, h, sort_due-has_key id l))

length-insert_due :
    (d : WebhookDelivery) (l : List WebhookDelivery) → length (insert_due d l) ≡ suc (length l)
unfolding insert_due
length-insert_due d [] = refl
length-insert_due d (e ∷ l) = ground (arith, length-insert_due d l)

pub length-sort_due : (l : List WebhookDelivery) → length (sort_due l) ≡ length l
unfolding sort_due
length-sort_due [] = refl
length-sort_due (d ∷ l) = length-insert_due d (sort_due l) ∙ ap suc (length-sort_due l)

pub take-whole : (n : ℕ) (l : List WebhookDelivery) → length l ≤ n → take n l ≡ l
take-whole zero [] h = refl
take-whole zero (d ∷ l) h = ground (arith, h)
take-whole (suc n) [] h = refl
take-whole (suc n) (d ∷ l) h = ap (λ x. d ∷ x) (take-whole n l (omega (arith, h)))

module _ (endpoint : WebhookDelivery → Answer) (saves : ℕ → Bool) (id : ℕ)
    (accepts : (e : WebhookDelivery) → (e.id == id) ≡ true → accepted (endpoint e) ≡ true)
    (saved : saves id ≡ true) where
  deliver_one-delivers :
      (e d : WebhookDelivery) (q : Queue)
      → (e.id == id) ≡ true
      → find_delivery id q.deliveries ≡ some d
      → find_delivery id (deliver_one endpoint saves e q).deliveries ≡ some (as_delivered d)
  unfolding deliver_one
  deliver_one-delivers e d q k f =
      let same : e.id ≡ id = ground (arith, k) in
      let s : saves e.id ≡ true = ap saves same ∙ saved in
      rw (s, accepts e k, same, deliver_one)
        (find-update_delivery id as_delivered q.deliveries d (λ x. refl) f)

  -- A delivered row stays so.
  deliver_all-stays :
      (l : List WebhookDelivery) (d : WebhookDelivery) (q : Queue)
      → find_delivery id q.deliveries ≡ some (as_delivered d)
      → find_delivery id (deliver_all endpoint saves l q).deliveries ≡ some (as_delivered d)
  unfolding deliver_all
  deliver_all-stays [] d q f = f
  deliver_all-stays (e ∷ l) d q f = elim (Bool-cases (e.id == id)) [
    | inl k ↦
        deliver_all-stays l d (deliver_one endpoint saves e q)
          (deliver_one-delivers e (as_delivered d) q k f)
    | inr k ↦
        deliver_all-stays l d (deliver_one endpoint saves e q)
          (deliver_one-other endpoint saves e q id k ∙ f)
  ]

  deliver_all-delivers :
      (l : List WebhookDelivery) (d : WebhookDelivery) (q : Queue)
      → find_delivery id q.deliveries ≡ some d
      → has_key id l ≡ true
      → find_delivery id (deliver_all endpoint saves l q).deliveries ≡ some (as_delivered d)
  unfolding deliver_all
  deliver_all-delivers [] d q f h = ground arith
  deliver_all-delivers (e ∷ l) d q f h = elim (Bool-cases (e.id == id)) [
    | inl k ↦
        deliver_all-stays l d (deliver_one endpoint saves e q) (deliver_one-delivers e d q k f)
    | inr k ↦
        deliver_all-delivers l d (deliver_one endpoint saves e q)
          (deliver_one-other endpoint saves e q id k ∙ f) (ground (arith, h, k))
  ]

-- A delivery that is due is delivered by the next pass where no more than 50 are due, its endpoint
-- accepts it and the update of its row succeeds, whatever the other endpoints answer and whichever
-- of the other updates fail.
pub due_is_delivered :
    (endpoint : WebhookDelivery → Answer) (saves : ℕ → Bool) (id : ℕ) (d : WebhookDelivery)
    (q : Queue)
    → find_delivery id q.deliveries ≡ some d
    → is_due q.webhooks q.now d ≡ true
    → length (keep (λ (e : WebhookDelivery). is_due q.webhooks q.now e) q.deliveries) ≤ 50
    → ((e : WebhookDelivery) → (e.id == id) ≡ true → accepted (endpoint e) ≡ true)
    → saves id ≡ true
    → find_delivery id (dispatch_once endpoint saves q).0.deliveries ≡ some (as_delivered d)
unfolding dispatch_once list_due
due_is_delivered endpoint saves id d q f h few a s =
    let due = λ (e : WebhookDelivery). is_due q.webhooks q.now e in
    let rows = keep due q.deliveries in
    let whole = take-whole dispatch_limit (sort_due rows) (rw (length-sort_due rows) few) in
    let listed = sort_due-has_key id rows (find_delivery-keep due id d q.deliveries f h) in
    rw (whole) (deliver_all-delivers endpoint saves id a s (sort_due rows) d q f listed)
