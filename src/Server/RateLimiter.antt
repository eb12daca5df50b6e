-- ===== src/Server/RateLimiter.antt =====
-- `RateLimiter` of internal/middleware/ratelimit.go: the visitors are a list by key, times and the
-- interval are in nanoseconds. The burst and the interval are
-- not 0, as in the only call of `NewRateLimiter`; `time.Now` never goes back.
pub mod Laws
pub mod Starving
use iaas_platform.Base.{
  ℕ, zero, suc, ◌+◌, ◌-◌, ◌*◌, ◌/◌, Bool, true, false, not, Option, none, some, List, [], ◌∷◌, ◌++◌,
  find, keep, ltb, leb, ◌==◌, if◌then◌else◌,
}
use iaas_platform.Base.Text.{Text, text_eq, is_empty}

pub record Visitor : Type 0 where
  pub tokens : ℕ
  pub last_seen : ℕ

pub record RateLimiter : Type 0 where
  pub visitors : List (Text × Visitor)
  pub rate : ℕ
  pub burst : ℕ
  pub interval : ℕ

unfoldable pub lookup : Text → List (Text × Visitor) → Option Visitor
lookup k [] = none
lookup k ((j, v) ∷ l) = let rest = lookup k l in if text_eq j k then some v else rest

unfoldable pub set : Text → Visitor → List (Text × Visitor) → List (Text × Visitor)
set k v [] = (k, v) ∷ []
set k v ((j, u) ∷ l) = let rest = set k v l in if text_eq j k then (j, v) ∷ l else (j, u) ∷ rest

-- The visitor after a call, and whether the call is allowed.
unfoldable pub take_token : RateLimiter → ℕ → Visitor → Visitor × Bool
take_token rl now v =
    let refilled = v.tokens + (now - v.last_seen) / rl.interval * rl.rate in
    let tokens = if ltb rl.burst refilled then rl.burst else refilled in
    if leb tokens 0
    then (record { tokens = tokens; last_seen = now }, false)
    else (record { tokens = tokens - 1; last_seen = now }, true)

-- `allow`
unfoldable pub allow : Text → ℕ → RateLimiter → RateLimiter × Bool
unfolding lookup set take_token
allow key now rl = elim (lookup key rl.visitors) [
  | none ↦ (
    record rl {
      visitors = set key (record { tokens = rl.burst - 1; last_seen = now }) rl.visitors;
    },
    true,
  )
  | some v ↦ let r = take_token rl now v in (record rl { visitors = set key r.0 rl.visitors }, r.1)
]

-- One round of `cleanup`: visitors that were not seen for more than 30 minutes are forgotten.
unfoldable pub cleanup : ℕ → RateLimiter → RateLimiter
cleanup now rl = record rl {
  visitors =
      keep (λ (p : Text × Visitor). not (ltb 1800000000000 (now - p.1.last_seen))) rl.visitors;
}

-- The key of a request in `Middleware`.
unfoldable pub key_of : Text → Text → Text
key_of remote_addr api_key = if is_empty api_key then remote_addr else api_key
