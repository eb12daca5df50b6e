-- ===== src/Server/Paging.antt =====
-- `PageParams` of internal/httpx/pagination.go, with `strconv.Atoi` on a 64-bit machine.
use iaas_platform.Base.{
  ℕ, zero, suc, ◌+◌, ◌-◌, ◌*◌, ◌≤◌, Option, none, some, [], ◌∷◌, ltb, leb, arith, ◌==◌,
  if◌then◌else◌,
}
use iaas_platform.Base.Text.{Text, is_digit, ℤ, pos, negsuc, negate}

abbrev pub default_page_limit : ℕ
default_page_limit = 50

abbrev pub max_page_limit : ℕ
max_page_limit = 100

-- Digits to the end.
unfoldable pub all_digits : ℕ → Text → Option ℕ
all_digits acc [] = some acc
all_digits acc (c ∷ s) =
    let rest = all_digits (10 * acc + (c - 48)) s in if is_digit c then rest else none

unfoldable pub digits : Text → Option ℕ
unfolding all_digits
digits [] = none
digits (c ∷ s) = all_digits 0 (c ∷ s)

unfoldable pub up_to : ℕ → Option ℕ → Option ℕ
up_to top none = none
up_to top (some n) = if leb n top then some n else none

-- `strconv.Atoi`; an error is `none`.
unfoldable pub atoi : Text → Option ℤ
unfolding digits up_to negate
atoi [] = none
atoi (c ∷ s) =
    if c == b'-'
    then negate (up_to 9223372036854775808 (digits s))
    else elim (up_to 9223372036854775807 (if c == b'+' then digits s else digits (c ∷ s))) [
      | none ↦ none
      | some n ↦ some (pos n)
    ]

-- `n, err := strconv.Atoi(raw); err == nil && n > 0`
abbrev pub positive : ℕ → Option ℤ → ℕ
positive other none = other
positive other (some (pos zero)) = other
positive other (some (pos (suc n))) = suc n
positive other (some (negsuc n)) = other

-- `PageParams`, of the values of `limit` and `offset` in the query.
unfoldable pub page_params : Text → Text → ℕ × ℕ
unfolding atoi
page_params limit offset =
    let n = positive default_page_limit (atoi limit) in
    (if ltb max_page_limit n then max_page_limit else n, positive 0 (atoi offset))

positive-pos : (other : ℕ) (o : Option ℤ) → 1 ≤ other → 1 ≤ positive other o
positive-pos other none h = h
positive-pos other (some (pos zero)) h = h
positive-pos other (some (pos (suc n))) h = omega arith
positive-pos other (some (negsuc n)) h = h

pub page_params-limit :
    (limit offset : Text)
    → (1 ≤ (page_params limit offset).0) × ((page_params limit offset).0 ≤ 100)
unfolding page_params
page_params-limit limit offset =
    let least = positive-pos default_page_limit (atoi limit) (omega arith) in
    (ground (arith, least), ground (arith, least))
