-- ===== src/Server/Validate.antt =====
-- The struct validator of internal/validate/validate.go. A text is the list of its code points. Of the
-- kinds of a value those are modelled that the requests of internal/models use; the comparisons of
-- float64 are a parameter. A field comes with its name in JSON, its tag and its value.
pub mod Requests
use iaas_platform.Base.{
  ℕ, zero, suc, Bool, true, false, not, ◌&&◌, ◌||◌, Option, none, some, List, [], ◌∷◌, any, keep,
  length, ltb, leb, ◌==◌, if◌then◌else◌,
}
use iaas_platform.Base.Text.{Text, lit, text_eq, is_empty, ℤ, pos, negsuc}
use iaas_platform.Server.Paging.{atoi}

-- Whether a float64 is zero, and how it compares with a whole number.
pub record Compare (Q : Type 0) : Type 0 where
  pub is_zero : Q → Bool
  pub below : Q → ℤ → Bool
  pub above : Q → ℤ → Bool
  pub at_least : Q → ℤ → Bool
  pub at_most : Q → ℤ → Bool

-- A slice is nil, or has a length.
pub data Value (Q : Type 0) : Type 0 where
  string : Text → Value Q
  int : ℤ → Value Q
  float : Q → Value Q
  slice : Option ℕ → Value Q

pub record Field (Q : Type 0) : Type 0 where
  pub name : Text
  pub tag : Text
  pub value : Value Q

-- The error, by the field that it names.
pub data Violation : Type 0 where
  is_required invalid_email not_one_of : Text → Violation
  too_short too_long out_of_bounds : Text → ℤ → Violation
  unsupported invalid_rule : Text → Text → Violation

abbrev pub below_int : ℤ → ℤ → Bool
below_int (pos m) (pos n) = ltb m n
below_int (pos m) (negsuc n) = false
below_int (negsuc m) (pos n) = true
below_int (negsuc m) (negsuc n) = ltb n m

-- A number of code points against a whole number.
abbrev pub fewer : ℕ → ℤ → Bool
fewer m (pos n) = ltb m n
fewer m (negsuc n) = false

abbrev pub more : ℕ → ℤ → Bool
more m (pos n) = ltb n m
more m (negsuc n) = true

-- `strings.Split(tag, ",")`
unfoldable pub split : ℕ → Text → List Text
split sep [] = [] ∷ []
split sep (c ∷ s) = elim (split sep s) [
  | [] ↦ []
  | r ∷ l ↦ if c == sep then [] ∷ r ∷ l else (c ∷ r) ∷ l
]

-- The rest of a text behind a prefix, if it has it.
unfoldable pub behind : Text → Text → Option Text
behind [] s = some s
behind (c ∷ p) [] = none
behind (c ∷ p) (d ∷ s) = if c == d then behind p s else none

-- `\s` of the regular expression.
abbrev pub is_blank : ℕ → Bool
is_blank c = c == 9 || c == 10 || c == 12 || c == 13 || c == 32

-- A `.` with a character on either side, where one comes before if the test says so.
unfoldable pub inner_dot : Bool → Text → Bool
inner_dot before [] = false
inner_dot before (c ∷ []) = false
inner_dot before (c ∷ d ∷ s) = (before && c == b'.') || inner_dot true (d ∷ s)

-- The part behind the `@`, and the part up to it, where a character came before if the test says so.
unfoldable pub is_domain : Text → Bool
unfolding inner_dot
is_domain s = not (any (λ (c : ℕ). c == b'@' || is_blank c) s) && inner_dot false s

unfoldable pub is_address : Bool → Text → Bool
unfolding is_domain
is_address before [] = false
is_address before (c ∷ s) =
    let rest = is_address true s in
    if c == b'@' then before && is_domain s else not (is_blank c) && rest

module _ {Q : Type 0} (compare : Compare Q) where
  -- `isEmpty`
  unfoldable pub is_zero_value : Value Q → Bool
  is_zero_value (string s) = is_empty s
  is_zero_value (int (pos zero)) = true
  is_zero_value (int (pos (suc n))) = false
  is_zero_value (int (negsuc n)) = false
  is_zero_value (float q) = compare.is_zero q
  is_zero_value (slice none) = true
  is_zero_value (slice (some n)) = false

  -- `isEmail`
  unfoldable pub is_email : Value Q → Bool
  unfolding is_address
  is_email (string s) = is_address false s
  is_email v = false

  abbrev pub unless : Bool → Violation → Option Violation
  unless b e = if b then some e else none

  -- `checkMin`, `checkMax` and `checkNumericBound`; what they do not know passes.
  unfoldable pub check_min : Text → ℤ → Value Q → Option Violation
  check_min name n (string s) = unless (fewer (length s) n) (too_short name n)
  check_min name n (int m) = unless (below_int m n) (too_short name n)
  check_min name n (float q) = unless (compare.below q n) (too_short name n)
  check_min name n (slice l) = none

  unfoldable pub check_max : Text → ℤ → Value Q → Option Violation
  check_max name n (string s) = unless (more (length s) n) (too_long name n)
  check_max name n (int m) = unless (below_int n m) (too_long name n)
  check_max name n (float q) = unless (compare.above q n) (too_long name n)
  check_max name n (slice l) = none

  -- `checkNumericBound` for gte, gt and lte. A whole number is compared as it is: float64 holds the
  -- numbers of the rules exactly and rounds others in their order.
  unfoldable pub check_at_least : Text → ℤ → Value Q → Option Violation
  check_at_least name n (int m) = unless (below_int m n) (out_of_bounds name n)
  check_at_least name n (float q) = unless (not (compare.at_least q n)) (out_of_bounds name n)
  check_at_least name n v = none

  unfoldable pub check_above : Text → ℤ → Value Q → Option Violation
  check_above name n (int m) = unless (not (below_int n m)) (out_of_bounds name n)
  check_above name n (float q) = unless (not (compare.above q n)) (out_of_bounds name n)
  check_above name n v = none

  unfoldable pub check_at_most : Text → ℤ → Value Q → Option Violation
  check_at_most name n (int m) = unless (below_int n m) (out_of_bounds name n)
  check_at_most name n (float q) = unless (not (compare.at_most q n)) (out_of_bounds name n)
  check_at_most name n v = none

  -- `strings.Fields`, for tokens that single spaces separate.
  unfoldable pub tokens : Text → List Text
  unfolding split
  tokens s = keep (λ (t : Text). not (is_empty t)) (split b' ' s)

  abbrev pub one_of : Text → List Text → Value Q → Option Violation
  one_of name l (string s) = unless (not (any (λ (t : Text). text_eq t s) l)) (not_one_of name)
  one_of name l v = some (not_one_of name)

  -- `parseRuleInt` and the check with the number.
  unfoldable pub with_number :
      Text → Text → (Text → ℤ → Value Q → Option Violation) → Text → Value Q → Option Violation
  unfolding atoi
  with_number rule name check digits v = elim (atoi digits) [
    | none ↦ some (invalid_rule rule name)
    | some n ↦ check name n v
  ]

  -- The first of the prefixes that the rule has, with its check.
  unfoldable pub check_numbered :
      Text
      → Text
      → List (Text × (Text → ℤ → Value Q → Option Violation))
      → Value Q
      → Option (Option Violation)
  unfolding behind with_number
  check_numbered rule name [] v = none
  check_numbered rule name ((prefix, check) ∷ l) v =
      let rest = check_numbered rule name l v in
      elim (behind prefix rule) [
        | none ↦ rest
        | some digits ↦ some (with_number rule name check digits v)
      ]

  abbrev numbered : List (Text × (Text → ℤ → Value Q → Option Violation))
  unfolding lit
  numbered =
      (lit "min=", check_min)
      ∷ (lit "max=", check_max)
      ∷ (lit "gte=", check_at_least)
      ∷ (lit "gt=", check_above)
      ∷ (lit "lte=", check_at_most)
      ∷ []

  -- One rule, but for `omitempty`.
  unfoldable pub check_rule : Text → Text → Value Q → Option Violation
  unfolding is_zero_value is_email check_numbered behind tokens lit text_eq
  check_rule name rule v =
      if text_eq rule (lit "required")
      then unless (is_zero_value v) (is_required name)
      else if text_eq rule (lit "email")
      then unless (not (is_email v)) (invalid_email name)
      else elim (check_numbered rule name numbered v) [
        | some r ↦ r
        | none ↦ elim (behind (lit "oneof=") rule) [
          | some s ↦ one_of name (tokens s) v
          | none ↦ some (unsupported rule name)
        ]
      ]

  -- The rules of a tag, in their order.
  unfoldable pub check_rules : Text → List Text → Value Q → Option Violation
  unfolding check_rule lit text_eq
  check_rules name [] v = none
  check_rules name (rule ∷ l) v =
      let rest = check_rules name l v in
      if is_empty rule
      then rest
      else if text_eq rule (lit "omitempty")
      then if is_zero_value v then none else rest
      else elim (check_rule name rule v) [ some e ↦ some e | none ↦ rest ]

  -- `validateField`
  unfoldable pub validate_field : Field Q → Option Violation
  unfolding split check_rules
  validate_field f = check_rules f.name (split b',' f.tag) f.value

  -- `Struct`, of the fields that have a tag.
  unfoldable pub validate_struct : List (Field Q) → Option Violation
  unfolding validate_field
  validate_struct [] = none
  validate_struct (f ∷ l) =
      let rest = validate_struct l in
      if is_empty f.tag then rest else elim (validate_field f) [ some e ↦ some e | none ↦ rest ]
