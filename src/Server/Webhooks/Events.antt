-- ===== src/Server/Webhooks/Events.antt =====
-- What a subscription may name: `normalizeEvents`, `validateRequest` and `validEvent` of
-- internal/webhooks/store.go with the events of internal/models/webhook.go. `url.Parse` is a
-- parameter, of which the scheme and the host are read.
use iaas_platform.Base.{
  ℕ, Bool, true, false, not, ◌&&◌, ◌||◌, Option, none, some, List, [], ◌∷◌, any, leb, ◌==◌,
  if◌then◌else◌,
}
use mathlib.Core.List.{reverse}
use iaas_platform.Base.Text.{Text, lit, text_eq, is_empty}

pub data Error : Type 0 where
  not_admin not_found invalid_url invalid_event empty_events internal : Error

pub record Url : Type 0 where
  pub scheme : Text
  pub host : Text

-- `AllEvents`
abbrev pub all_events : List Text
all_events =
    lit "instance.created"
    ∷ lit "instance.updated"
    ∷ lit "instance.terminated"
    ∷ lit "org.member_added"
    ∷ lit "org.member_removed"
    ∷ lit "org.member_suspended"
    ∷ lit "org.member_unsuspended"
    ∷ lit "org.join_request_accepted"
    ∷ lit "org.join_request_revoked"
    ∷ lit "billing.usage_recorded"
    ∷ lit "billing.invoice_generated"
    ∷ []

-- `EventPing`
abbrev pub event_ping : Text
event_ping = lit "ping"

abbrev pub has_text : Text → List Text → Bool
has_text t l = any (λ (e : Text). text_eq e t) l

-- `unicode.IsSpace`
unfoldable pub is_space : ℕ → Bool
is_space c =
    (leb 9 c && leb c 13)
    || c == 32
    || c == 133
    || c == 160
    || c == 5760
    || (leb 8192 c && leb c 8202)
    || c == 8232
    || c == 8233
    || c == 8239
    || c == 8287
    || c == 12288

unfoldable pub trim_left : Text → Text
unfolding is_space
trim_left [] = []
trim_left (c ∷ s) = let rest = trim_left s in if is_space c then rest else c ∷ s

-- `strings.TrimSpace`
unfoldable pub trim_space : Text → Text
unfolding trim_left
trim_space s = reverse (trim_left (reverse (trim_left s)))

-- `validEvent`
unfoldable pub valid_event : Text → Bool
valid_event e = has_text e all_events

-- The loop of `normalizeEvents`, after the events of `seen`.
unfoldable pub normalize_from : List Text → List Text → List Text
unfolding trim_space
normalize_from seen [] = []
normalize_from seen (e ∷ l) =
    let t = trim_space e in
    let kept = normalize_from (t ∷ seen) l in
    let rest = normalize_from seen l in
    if not (is_empty t) && not (has_text t seen) then t ∷ kept else rest

-- `normalizeEvents`
unfoldable pub normalize_events : List Text → List Text
unfolding normalize_from
normalize_events l = normalize_from [] l

-- The condition on the URL that was parsed.
unfoldable pub bad_url : Option Url → Bool
bad_url none = true
bad_url (some u) =
    is_empty u.scheme
    || is_empty u.host
    || (not (text_eq u.scheme (lit "http")) && not (text_eq u.scheme (lit "https")))

abbrev pub no_events : List Text → Bool
no_events [] = true
no_events (e ∷ l) = false

-- `validateRequest`
unfoldable pub validate_request : (Text → Option Url) → Text → List Text → Option Error
unfolding bad_url valid_event
validate_request parse url events =
    if bad_url (parse url)
    then some invalid_url
    else if no_events events
    then some empty_events
    else if any (λ (e : Text). not (valid_event e)) events
    then some invalid_event
    else none
