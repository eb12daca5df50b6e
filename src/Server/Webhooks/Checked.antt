-- ===== src/Server/Webhooks/Checked.antt =====
-- What passes the checks of internal/webhooks/service.go: the webhooks that a request may store.
use iaas_platform.Base.{
  ◌≡◌, refl, sym, ◌∙◌, ◌⊎◌, inl, inr, Bool, true, false, not, ◌&&◌, ◌||◌, Option, none, some, List,
  [], ◌∷◌, any, All, arith, Bool-cases, Option-cases,
}
use iaas_platform.Base.Text.{Text, lit, text_eq, is_empty}
use iaas_platform.Base.Text.Laws.{text_eq_iff}
use iaas_platform.Server.Webhooks.{Webhook}
use iaas_platform.Server.Webhooks.Events.{
  Url, all_events, has_text, trim_space, valid_event, normalize_from, normalize_events, bad_url,
  no_events, validate_request,
}
use iaas_platform.Server.Webhooks.Service.{
  Result, ok, refused, UpdateWebhookRequest, with_url, with_events, with_active, then_do, changed,
}

-- The list holds no text twice.
unfoldable pub distinct : List Text → Bool
distinct [] = true
distinct (e ∷ l) = not (has_text e l) && distinct l

-- An absolute URL of the schemes http and https.
pub record Absolute (parse : Text → Option Url) (url : Text) : Type 0 where
  pub parts : Url
  pub parses : parse url ≡ some parts
  pub host : is_empty parts.host ≡ false
  pub scheme : (parts.scheme ≡ lit "http") ⊎ (parts.scheme ≡ lit "https")

-- The events are some of `AllEvents`, at least one, and none of them twice.
pub record Subscription (events : List Text) : Type 0 where
  pub known : All (λ (e : Text). has_text e all_events ≡ true) events
  pub nonempty : no_events events ≡ false
  pub once : distinct events ≡ true

pub record Registered (parse : Text → Option Url) (h : Webhook) : Type 0 where
  pub url : Absolute parse h.url
  pub events : Subscription h.events

bad_url-Absolute :
    (parse : Text → Option Url) (url : Text) → bad_url (parse url) ≡ false → Absolute parse url
unfolding bad_url
bad_url-Absolute parse url e = elim (Option-cases (parse url)) [
  | inl n ↦ ground (arith, n, e)
  | inr (u, n) ↦
      let b : (is_empty u.scheme
            || is_empty u.host
            || (not (text_eq u.scheme (lit "http")) && not (text_eq u.scheme (lit "https"))))
          ≡ false =
        simp n at e in
      record {
        parts = u;
        parses = n;
        host = ground (arith, b);
        scheme = elim (Bool-cases (text_eq u.scheme (lit "http"))) [
          | inl s ↦ inl ((text_eq_iff u.scheme (lit "http")).0 s)
          | inr s ↦ inr ((text_eq_iff u.scheme (lit "https")).0 (ground (arith, b, s)))
        ];
      }
]

text_eq_symm : (s t : Text) → text_eq s t ≡ true → text_eq t s ≡ true
text_eq_symm s t e = (text_eq_iff t s).1 (sym ((text_eq_iff s t).0 e))

-- No event of the list is one of `seen`.
unfoldable apart : List Text → List Text → Bool
apart seen [] = true
apart seen (e ∷ l) = not (has_text e seen) && apart seen l

apart-tail :
    (t : Text) (seen l : List Text)
    → apart (t ∷ seen) l ≡ true
    → (apart seen l ≡ true) × (has_text t l ≡ false)
unfolding apart
apart-tail t seen [] h = (refl, refl)
apart-tail t seen (e ∷ l) h = (
  ground (arith, h, apart-tail t seen l),
  ground (arith, h, apart-tail t seen l, text_eq_symm e t),
)

normalize_from-once :
    (seen l : List Text)
    → (apart seen (normalize_from seen l) ≡ true) × (distinct (normalize_from seen l) ≡ true)
unfolding normalize_from apart distinct
normalize_from-once seen [] = (refl, refl)
normalize_from-once seen (e ∷ l) =
    let t = trim_space e in
    let (a, d) = normalize_from-once (t ∷ seen) l in
    let (b, c) = apart-tail t seen (normalize_from (t ∷ seen) l) a in
    let (g, k) = normalize_from-once seen l in (ground (arith, b, g), ground (arith, c, d, k))

normalize_events-once : (l : List Text) → distinct (normalize_events l) ≡ true
unfolding normalize_events
normalize_events-once l = (normalize_from-once [] l).1

events-All :
    (l : List Text)
    → any (λ (e : Text). not (valid_event e)) l ≡ false
    → All (λ (e : Text). has_text e all_events ≡ true) l
unfolding valid_event
events-All [] h = tt
events-All (e ∷ l) h = (ground (arith, h), events-All l (ground (arith, h)))

-- What a request that passes the check may store.
validate_request-none :
    (parse : Text → Option Url) (url : Text) (l : List Text)
    → validate_request parse url l ≡ none
    → Absolute parse url
      × (no_events l ≡ false)
      × All (λ (e : Text). has_text e all_events ≡ true) l
unfolding validate_request
validate_request-none parse url l h = (
  bad_url-Absolute parse url (ground (arith, h)),
  ground (arith, h),
  events-All l (ground (arith, h)),
)

pub validated-Subscription :
    (parse : Text → Option Url) (url : Text) (l : List Text)
    → validate_request parse url (normalize_events l) ≡ none
    → Absolute parse url × Subscription (normalize_events l)
validated-Subscription parse url l h =
    let (a, b, c) = validate_request-none parse url (normalize_events l) h in
    (a, record { known = c; nonempty = b; once = normalize_events-once l })

-- What an update makes of a webhook: one with the same key and organization, registered where the
-- webhook was.
abbrev pub Revised : (Text → Option Url) → Webhook → Result Webhook → Type 0
Revised parse h (refused e) = Unit
Revised parse h (ok k) =
    (Registered parse h → Registered parse k)
    × (k.id ≡ h.id)
    × (k.organization_id ≡ h.organization_id)

module _ (parse : Text → Option Url) where
  with_url-Revised : (o : Option Text) (h : Webhook) → Revised parse h (with_url parse o h)
  unfolding with_url
  with_url-Revised none h = (λ r. r, refl, refl)
  with_url-Revised (some url) h = elim (Option-cases (validate_request parse url h.events)) [
    | inr (x, n) ↦ simp (n, with_url) tt
    | inl n ↦
        let (a, _, _) = validate_request-none parse url h.events n in
        simp (n, with_url) (λ r. record { url = a; events = r.events }, refl, refl)
  ]

  with_events-Revised :
      (o : Option (List Text)) (h : Webhook) → Revised parse h (with_events parse o h)
  unfolding with_events
  with_events-Revised none h = (λ r. r, refl, refl)
  with_events-Revised (some l) h =
      elim (Option-cases (validate_request parse h.url (normalize_events l))) [
        | inr (x, n) ↦ simp (n, with_events) tt
        | inl n ↦
            let (a, b) = validated-Subscription parse h.url l n in
            simp (n, with_events) (λ r. record { url = r.url; events = b }, refl, refl)
      ]

  with_active-Revised : (o : Option Bool) (h : Webhook) → Revised parse h (ok (with_active o h))
  with_active-Revised none h = (λ r. r, refl, refl)
  with_active-Revised (some b) h = (λ r. record { url = r.url; events = r.events }, refl, refl)

  then_do-Revised :
      (h : Webhook) (x : Result Webhook) (k : Webhook → Result Webhook)
      → Revised parse h x
      → ((g : Webhook) → Revised parse g (k g))
      → Revised parse h (then_do x k)
  then_do-Revised h (refused e) k r s = tt
  then_do-Revised h (ok g) k (r, i, o) s = along (k g) (s g)
    where
      along : (y : Result Webhook) → Revised parse g y → Revised parse h y
      along (refused e) t = tt
      along (ok z) (t, j, p) = (λ a. t (r a), j ∙ i, p ∙ o)

  pub changed-Revised :
      (r : UpdateWebhookRequest) (h : Webhook) → Revised parse h (changed parse r h)
  unfolding changed
  changed-Revised r h =
      then_do-Revised h (with_url parse r.url h) _ (with_url-Revised r.url h) (λ g.
        then_do-Revised g (with_events parse r.events g) _ (with_events-Revised r.events g)
          (with_active-Revised r.active))
