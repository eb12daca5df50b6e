-- ===== src/Server/RateLimiter/Starving.antt =====
-- What a client gets that calls faster than tokens come back: internal/middleware/ratelimit.go.
use iaas_platform.Base.{ℕ, ◌+◌, ◌-◌, ◌*◌, ◌/◌, ◌≤◌, ◌<◌, ◌≡◌, refl, some, [], ◌∷◌, arith, All}
use mathlib.Core.Path.{subst}
use native.Mathlib.Nat.{div-eq_of_lt}
use iaas_platform.Base.Text.{Text}
use iaas_platform.Base.Text.Laws.{text_eq_iff}
use iaas_platform.Server.RateLimiter.{RateLimiter, Visitor, lookup, take_token, allow}
use iaas_platform.Server.RateLimiter.Laws.{
  Calls, allowed, one_if, take_token-bound, take_token-last, allow-known, allow-limits,
}

take_token-soon :
    (rl : RateLimiter) (d : ℕ) (v : Visitor)
    → d < rl.interval
    → one_if (take_token rl (v.last_seen + d) v).1 + (take_token rl (v.last_seen + d) v).0.tokens
      ≤ v.tokens
take_token-soon rl d v h =
    let bound = take_token-bound rl (v.last_seen + d) v in
    let left : v.last_seen + d - v.last_seen ≡ d = omega arith in
    let none_back : (v.last_seen + d - v.last_seen) / rl.interval * rl.rate ≡ 0 =
      rw (left, div-eq_of_lt h) (omega arith) in
    omega (arith, bound, none_back)

-- A client that calls again and again, each time before an interval has passed since the call
-- before, gets no token back however long it goes on: it is let through at most as often as it had
-- tokens when it was last seen.
pub steady_client_starves :
    (k : Text) (rl : RateLimiter) (l : Calls) (v : Visitor)
    → lookup k rl.visitors ≡ some v
    → All (λ (c : ℕ × Text). (c.0 < rl.interval) × (c.1 ≡ k)) l
    → allowed k rl v.last_seen l ≤ v.tokens
unfolding allowed
steady_client_starves k rl [] v e a = omega arith
steady_client_starves k rl ((d, j) ∷ l) v e ((soon, own), a) =
    let t = v.last_seen + d in
    let known = allow-known k t rl v e in
    let once = take_token-soon rl d v soon in
    let last = take_token-last rl t v in
    let rest =
      steady_client_starves k (allow k t rl).0 l (take_token rl t v).0 known.1
        (rw ((allow-limits k t rl).1) a) in
    let rest' : allowed k (allow k t rl).0 t l ≤ (take_token rl t v).0.tokens =
      subst (λ n. allowed k (allow k t rl).0 n l ≤ (take_token rl t v).0.tokens) last rest in
    rw (own, (text_eq_iff k k).1 refl, known.0) (omega (arith, once, rest'))
