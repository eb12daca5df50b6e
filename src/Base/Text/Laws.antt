-- ===== src/Base/Text/Laws.antt =====
-- Equality of texts, and numbers through `${n}` and `parseInt`.
use Prim.Native.Nat.{ℕ, zero, suc, ◌+◌, ◌/◌, ◌%◌, ◌<◌}
use mathlib.Core.Path.{◌≡◌, refl, ◌∙◌, ap}
use mathlib.Core.Logic.{◌↔◌, inl, inr}
use mathlib.Core.Bool.{true}
use mathlib.Core.Option.{some}
use mathlib.Core.List.{[], ◌∷◌}
use native.Mathlib.Omega.{arith}
use iaas_platform.Base.Tests.{leb, Bool-cases}
use iaas_platform.Base.Text.{
  Text, text_eq, is_digit, pos, parse_digits, parse_int, show_digits, show,
}

pub text_eq_iff : (s t : Text) → (text_eq s t ≡ true) ↔ (s ≡ t)
unfolding text_eq
text_eq_iff [] [] = ground arith
text_eq_iff [] (b ∷ t) = ground arith
text_eq_iff (a ∷ s) [] = ground arith
text_eq_iff (a ∷ s) (b ∷ t) = ground (arith, text_eq_iff s t)

pub text_eq_refl : (s : Text) → text_eq s s ≡ true
text_eq_refl s = (text_eq_iff s s).1 refl

-- The digits of `n` in front of `rest` are read back as `n`, and the reader goes on with `rest`.
parse_digits-show_digits :
    (f n : ℕ) (rest : Text) → n < f → parse_digits 0 (show_digits f n rest) ≡ parse_digits n rest
unfolding show_digits parse_digits
parse_digits-show_digits zero n rest h = elim h [ ]
parse_digits-show_digits (suc f) n rest h = elim (Bool-cases (leb 10 n)) [
  | inl more ↦
      rw more
        (parse_digits-show_digits f (n / 10) ((48 + n % 10) ∷ rest) (ground arith) ∙ ground arith)
  | inr done ↦ ground arith
]

abbrev StartsWithDigit : Text → Type 0
StartsWithDigit [] = ⊥
StartsWithDigit (c ∷ s) = is_digit c ≡ true

show_digits-StartsWithDigit :
    (f n : ℕ) (rest : Text) → n < f → StartsWithDigit (show_digits f n rest)
unfolding show_digits
show_digits-StartsWithDigit zero n rest h = elim h [ ]
show_digits-StartsWithDigit (suc f) n rest h = elim (Bool-cases (leb 10 n)) [
  | inl more ↦
      rw more (show_digits-StartsWithDigit f (n / 10) ((48 + n % 10) ∷ rest) (ground arith))
  | inr done ↦ ground arith
]

-- A text that starts with a digit has no sign and no white space in front.
parse_int-digits : (s : Text) → StartsWithDigit s → parse_int s ≡ some (pos (parse_digits 0 s))
unfolding parse_int
parse_int-digits [] h = elim h [ ]
parse_int-digits (c ∷ s) h = ground arith

-- `parseInt(`${n}`, 10)` is `n`.
pub parse_int-show : (n : ℕ) → parse_int (show n) ≡ some (pos n)
unfolding show parse_digits
parse_int-show n =
    parse_int-digits _ (show_digits-StartsWithDigit (suc n) n [] (omega arith))
    ∙ ap (λ (k : ℕ). some (pos k)) (parse_digits-show_digits (suc n) n [] (omega arith))
