-- ===== src/Server/RateLimiter/Laws.antt =====
-- How many calls of a client `allow` of internal/middleware/ratelimit.go lets pass.
use iaas_platform.Base.{
  ℕ, ◌+◌, ◌-◌, ◌*◌, ◌/◌, ◌≤◌, ◌<◌, ◌≡◌, refl, ap, ◌∙◌, inl, inr, Bool, true, false, ◌&&◌, none,
  some, List, [], ◌∷◌, arith, Bool-cases, Option-cases,
}
use native.Mathlib.Nat.{add-mul, mul-le-mul_right, le-div_iff_mul-le, div-mul-le_self}
use iaas_platform.Base.Text.{Text, text_eq}
use iaas_platform.Base.Text.Laws.{text_eq_iff}
use iaas_platform.Server.RateLimiter.{RateLimiter, Visitor, lookup, set, take_token, allow}

-- Calls one after the other: how long each comes after the one before it, and its key.
abbrev pub Calls : Type 0
Calls = List (ℕ × Text)

abbrev pub total_time : Calls → ℕ
total_time [] = 0
total_time ((d, j) ∷ l) = d + total_time l

abbrev pub one_if : Bool → ℕ
one_if true = 1
one_if false = 0

-- The calls with a key that are allowed, from a time on.
unfoldable pub allowed : Text → RateLimiter → ℕ → Calls → ℕ
unfolding allow
allowed k rl now [] = 0
allowed k rl now ((d, j) ∷ l) =
    one_if (text_eq j k && (allow j (now + d) rl).1)
    + allowed k (allow j (now + d) rl).0 (now + d) l

lookup-set : (k : Text) (v : Visitor) (l : List (Text × Visitor)) → lookup k (set k v l) ≡ some v
unfolding lookup set
lookup-set k v [] = rw ((text_eq_iff k k).1 refl) refl
lookup-set k v ((j, u) ∷ l) = ground (arith, lookup-set k v l, (text_eq_iff k k).1 refl)

lookup-set_other :
    (k j : Text) (v : Visitor) (l : List (Text × Visitor))
    → text_eq j k ≡ false
    → lookup k (set j v l) ≡ lookup k l
unfolding lookup set
lookup-set_other k j v [] n = rw n refl
lookup-set_other k j v ((i, u) ∷ l) n = elim (Bool-cases (text_eq i j)) [
  | inl e ↦ let m = ap (λ z. text_eq z k) ((text_eq_iff i j).0 e) ∙ n in rw (e, m) refl
  | inr e ↦ ground (arith, e, lookup-set_other k j v l n)
]

pub take_token-bound :
    (rl : RateLimiter) (now : ℕ) (v : Visitor)
    → one_if (take_token rl now v).1 + (take_token rl now v).0.tokens
      ≤ v.tokens + (now - v.last_seen) / rl.interval * rl.rate
unfolding take_token
take_token-bound rl now v = ground arith

pub take_token-last :
    (rl : RateLimiter) (now : ℕ) (v : Visitor) → (take_token rl now v).0.last_seen ≡ now
unfolding take_token
take_token-last rl now v = ground arith

div-add : (a b i r : ℕ) → 0 < i → a / i * r + b / i * r ≤ (a + b) / i * r
div-add a b i r p = rw⁻¹ (add-mul (a / i) (b / i) r) (
    mul-le-mul_right r (
      (le-div_iff_mul-le p).1
        (rw (add-mul (a / i) (b / i) i) (omega (arith, div-mul-le_self a i, div-mul-le_self b i)))))

-- What a visitor can still be allowed up to a time.
abbrev budget : RateLimiter → ℕ → Visitor → ℕ
budget rl until v = v.tokens + (until - v.last_seen) / rl.interval * rl.rate

take_token-budget :
    (rl : RateLimiter) (now rest : ℕ) (v : Visitor)
    → 0 < rl.interval
    → v.last_seen ≤ now
    → one_if (take_token rl now v).1 + budget rl (now + rest) (take_token rl now v).0
      ≤ budget rl (now + rest) v
take_token-budget rl now rest v p h =
    let bound = take_token-bound rl now v in
    let total : now + rest - v.last_seen ≡ now - v.last_seen + rest = omega arith in
    let left : now + rest - now ≡ rest = omega arith in
    let more : (now - v.last_seen) / rl.interval * rl.rate + rest / rl.interval * rl.rate
        ≤ (now + rest - v.last_seen) / rl.interval * rl.rate =
      rw total (div-add (now - v.last_seen) rest rl.interval rl.rate p) in
    rw (take_token-last rl now v, left) (omega (arith, bound, more))

-- The limiter after a call keeps its limits.
pub allow-limits :
    (j : Text) (now : ℕ) (rl : RateLimiter)
    → ((allow j now rl).0.rate ≡ rl.rate)
      × ((allow j now rl).0.interval ≡ rl.interval)
      × ((allow j now rl).0.burst ≡ rl.burst)
unfolding allow
allow-limits j now rl = (ground arith, ground arith, ground arith)

allow-other :
    (k j : Text) (now : ℕ) (rl : RateLimiter)
    → text_eq j k ≡ false
    → lookup k (allow j now rl).0.visitors ≡ lookup k rl.visitors
unfolding allow
allow-other k j now rl n = elim (Option-cases (lookup j rl.visitors)) [
  | inl e ↦ simp (e, allow) (lookup-set_other k j _ rl.visitors n)
  | inr (v, e) ↦ simp (e, allow) (lookup-set_other k j _ rl.visitors n)
]

pub allow-known :
    (k : Text) (now : ℕ) (rl : RateLimiter) (v : Visitor)
    → lookup k rl.visitors ≡ some v
    → ((allow k now rl).1 ≡ (take_token rl now v).1)
      × (lookup k (allow k now rl).0.visitors ≡ some (take_token rl now v).0)
unfolding allow
allow-known k now rl v e =
    (simp (e, allow) refl, simp (e, allow) (lookup-set k (take_token rl now v).0 rl.visitors))

budget-allow :
    (j : Text) (now until : ℕ) (rl : RateLimiter) (v : Visitor)
    → budget (allow j now rl).0 until v ≡ budget rl until v
budget-allow j now until rl v = let limits = allow-limits j now rl in rw (limits.0, limits.1) refl

-- One call and the calls after it.
allowed-own :
    (k : Text) (rl : RateLimiter) (t rest after : ℕ) (v : Visitor)
    → 0 < rl.interval
    → lookup k rl.visitors ≡ some v
    → v.last_seen ≤ t
    → after ≤ budget (allow k t rl).0 (t + rest) (take_token rl t v).0
    → one_if (text_eq k k && (allow k t rl).1) + after ≤ budget rl (t + rest) v
allowed-own k rl t rest after v p e h a =
    let bound = take_token-budget rl t rest v p h in
    let same = budget-allow k t (t + rest) rl (take_token rl t v).0 in
    rw ((text_eq_iff k k).1 refl, (allow-known k t rl v e).0) (omega (arith, bound, a, same))

allowed-known :
    (k : Text) (rl : RateLimiter) (now : ℕ) (l : Calls) (v : Visitor)
    → 0 < rl.interval
    → lookup k rl.visitors ≡ some v
    → v.last_seen ≤ now
    → allowed k rl now l ≤ budget rl (now + total_time l) v
unfolding allowed
allowed-known k rl now [] v p e h = omega arith
allowed-known k rl now ((d, j) ∷ l) v p e h =
    let sum : now + (d + total_time l) ≡ now + d + total_time l = omega arith in
    let limits = allow-limits j (now + d) rl in
    elim (Bool-cases (text_eq j k)) [
      | inr n ↦
          let rest =
            allowed-known k (allow j (now + d) rl).0 (now + d) l v (rw (limits.1) p)
              (allow-other k j (now + d) rl n ∙ e) (omega arith) in
          let same = budget-allow j (now + d) (now + d + total_time l) rl v in
          rw (n, sum) (omega (arith, rest, same))
      | inl y ↦
          let known = allow-known k (now + d) rl v e in
          let rest =
            allowed-known k (allow k (now + d) rl).0 (now + d) l (take_token rl (now + d) v).0
              (rw ((allow-limits k (now + d) rl).1) p) known.1
              (rw (take_token-last rl (now + d) v) (omega arith)) in
          rw ((text_eq_iff j k).0 y, sum)
            (allowed-own k rl (now + d) (total_time l) _ v p e (omega arith) rest)
    ]

abbrev fresh : RateLimiter → ℕ → Visitor
fresh rl t = record { tokens = rl.burst - 1; last_seen = t }

allow-unknown :
    (k : Text) (t : ℕ) (rl : RateLimiter)
    → lookup k rl.visitors ≡ none
    → ((allow k t rl).1 ≡ true) × (lookup k (allow k t rl).0.visitors ≡ some (fresh rl t))
unfolding allow
allow-unknown k t rl e =
    (simp (e, allow) refl, simp (e, allow) (lookup-set k (fresh rl t) rl.visitors))

abbrev most : RateLimiter → ℕ → ℕ
most rl ms = rl.burst + ms / rl.interval * rl.rate

most-allow : (j : Text) (t ms : ℕ) (rl : RateLimiter) → most (allow j t rl).0 ms ≡ most rl ms
most-allow j t ms rl = let limits = allow-limits j t rl in rw (limits.0, limits.1, limits.2) refl

most-longer : (d ms : ℕ) (rl : RateLimiter) → 0 < rl.interval → most rl ms ≤ most rl (d + ms)
most-longer d ms rl p = omega (arith, div-add d ms rl.interval rl.rate p)

allowed-first :
    (k : Text) (rl : RateLimiter) (t ms after : ℕ)
    → 0 < rl.burst
    → lookup k rl.visitors ≡ none
    → after ≤ budget (allow k t rl).0 (t + ms) (fresh rl t)
    → one_if (text_eq k k && (allow k t rl).1) + after ≤ most rl ms
allowed-first k rl t ms after b e a =
    let same = budget-allow k t (t + ms) rl (fresh rl t) in
    let left : t + ms - t ≡ ms = omega arith in
    let all : budget rl (t + ms) (fresh rl t) ≡ rl.burst - 1 + ms / rl.interval * rl.rate =
      rw left refl in
    rw ((text_eq_iff k k).1 refl, (allow-unknown k t rl e).0) (omega (arith, a, same, all))

-- A client that the limiter does not know is let through at most the burst, and the rate for each
-- interval that fits in the time of the calls: for every sequence of calls of any clients, where
-- neither the burst nor the interval is 0.
pub allowed_at_most :
    (k : Text) (rl : RateLimiter) (now : ℕ) (l : Calls)
    → 0 < rl.interval
    → 0 < rl.burst
    → lookup k rl.visitors ≡ none
    → allowed k rl now l ≤ rl.burst + total_time l / rl.interval * rl.rate
unfolding allowed
allowed_at_most k rl now [] p b e = omega arith
allowed_at_most k rl now ((d, j) ∷ l) p b e =
    let limits = allow-limits j (now + d) rl in
    let longer = most-longer d (total_time l) rl p in
    elim (Bool-cases (text_eq j k)) [
      | inr n ↦
          let rest =
            allowed_at_most k (allow j (now + d) rl).0 (now + d) l (rw (limits.1) p)
              (rw (limits.2) b) (allow-other k j (now + d) rl n ∙ e) in
          let same = most-allow j (now + d) (total_time l) rl in
          rw n (omega (arith, longer, rest, same))
      | inl y ↦
          let rest =
            allowed-known k (allow k (now + d) rl).0 (now + d) l (fresh rl (now + d))
              (rw ((allow-limits k (now + d) rl).1) p) (allow-unknown k (now + d) rl e).1
              (omega arith) in
          let first = allowed-first k rl (now + d) (total_time l) _ b e rest in
          rw ((text_eq_iff j k).0 y) (omega (arith, longer, first))
    ]
