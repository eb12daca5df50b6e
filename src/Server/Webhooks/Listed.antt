-- ===== src/Server/Webhooks/Listed.antt =====
-- How many rows of a key the lists of a pass hold: internal/webhooks/dispatcher.go.
use iaas_platform.Base.{
  ℕ, suc, ◌≤◌, ◌≡◌, refl, ◌∙◌, Bool, true, false, some, List, [], ◌∷◌, any, keep, length, ◌==◌,
  arith, if◌then◌else◌,
}
use iaas_platform.Server.Webhooks.{WebhookDelivery, sort_due, insert_due, update_delivery}
use iaas_platform.Server.Webhooks.Due.{find_delivery}

-- How many rows have this key.
unfoldable pub rows_of : ℕ → List WebhookDelivery → ℕ
rows_of id [] = 0
rows_of id (d ∷ l) = let rest = rows_of id l in if d.id == id then suc rest else rest

pub rows_of-any :
    (id : ℕ) (l : List WebhookDelivery)
    → rows_of id l ≤ 0
    → any (λ (d : WebhookDelivery). d.id == id) l ≡ false
unfolding rows_of
rows_of-any id [] h = refl
rows_of-any id (d ∷ l) h = ground (arith, h, rows_of-any id l)

pub rows_of-keep :
    (p : WebhookDelivery → Bool) (id : ℕ) (l : List WebhookDelivery)
    → rows_of id (keep p l) ≤ rows_of id l
unfolding rows_of
rows_of-keep p id [] = omega arith
rows_of-keep p id (d ∷ l) = ground (arith, rows_of-keep p id l)

pub find-keep :
    (p : WebhookDelivery → Bool) (id : ℕ) (d : WebhookDelivery) (l : List WebhookDelivery)
    → find_delivery id l ≡ some d
    → p d ≡ true
    → find_delivery id (keep p l) ≡ some d
unfolding find_delivery
find-keep p id d [] f h = ground arith
find-keep p id d (e ∷ l) f h = ground (arith, f, h, find-keep p id d l)

pub length-keep :
    (p : WebhookDelivery → Bool) (l : List WebhookDelivery) → length (keep p l) ≤ length l
length-keep p [] = omega arith
length-keep p (d ∷ l) = ground (arith, length-keep p l)

rows_of-insert_due :
    (id : ℕ) (e : WebhookDelivery) (l : List WebhookDelivery)
    → rows_of id (insert_due e l) ≡ rows_of id (e ∷ l)
unfolding rows_of insert_due
rows_of-insert_due id e [] = refl
rows_of-insert_due id e (x ∷ l) = ground (arith, rows_of-insert_due id e l)

pub rows_of-sort_due : (id : ℕ) (l : List WebhookDelivery) → rows_of id (sort_due l) ≡ rows_of id l
unfolding rows_of sort_due
rows_of-sort_due id [] = refl
rows_of-sort_due id (d ∷ l) =
    rows_of-insert_due id d (sort_due l) ∙ ground (arith, rows_of-sort_due id l)

find-insert_due :
    (id : ℕ) (d e : WebhookDelivery) (l : List WebhookDelivery)
    → rows_of id (e ∷ l) ≤ 1
    → find_delivery id (e ∷ l) ≡ some d
    → find_delivery id (insert_due e l) ≡ some d
unfolding find_delivery insert_due rows_of
find-insert_due id d e [] one f = f
find-insert_due id d e (x ∷ l) one f = ground (arith, one, f, find-insert_due id d e l)

pub find-sort_due :
    (id : ℕ) (d : WebhookDelivery) (l : List WebhookDelivery)
    → rows_of id l ≤ 1
    → find_delivery id l ≡ some d
    → find_delivery id (sort_due l) ≡ some d
unfolding find_delivery sort_due rows_of
find-sort_due id d [] one f = f
find-sort_due id d (e ∷ l) one f =
    let same = rows_of-sort_due id l in
    find-insert_due id d e (sort_due l) (ground (arith, one, same))
      (ground (arith, one, f, find-sort_due id d l))

pub rows_of-update_delivery :
    (id k : ℕ) (g : WebhookDelivery → WebhookDelivery) (l : List WebhookDelivery)
    → ((e : WebhookDelivery) → (g e).id ≡ e.id)
    → (rows_of id (update_delivery k g l) ≡ rows_of id l)
      × (length (update_delivery k g l) ≡ length l)
unfolding rows_of update_delivery
rows_of-update_delivery id k g [] keeps = (refl, refl)
rows_of-update_delivery id k g (d ∷ l) keeps =
    ground (arith, keeps d, rows_of-update_delivery id k g l keeps)
