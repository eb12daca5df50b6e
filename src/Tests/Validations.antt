-- ===== src/Tests/Validations.antt =====
-- The validation of concrete requests.
use iaas_platform.Base.{ℕ, ◌≡◌, true, false, not, some, [], ◌&&◌, ◌||◌, length, leb, ◌==◌}
use iaas_platform.Base.Text.{Text, lit, is_empty}
use iaas_platform.Server.Validate.{Compare, validate_struct, is_address, fewer, more}
use iaas_platform.Server.Validate.Requests.{
  passes, is_given, signup_fields, webhook_fields, signup_validated, webhook_validated,
}

-- Quantities without a fraction.
abbrev whole : Compare ℕ
whole = record {
  is_zero = λ q. q == 0;
  below = fewer;
  above = more;
  at_least = λ q n. not (fewer q n);
  at_most = λ q n. not (more q n);
}

abbrev address : Text
address = lit "eve@acme.test"

signup_validated_example :
    passes (
      validate_struct whole
        (signup_fields whole address (lit "password") (lit "Eve") [] (lit "ac")))
    ≡ (is_address false address
        && (leb 8 (length (lit "password"))
            && ((leb 2 (length (lit "Eve")) && leb (length (lit "Eve")) 64)
                && (leb 0 64
                    && (is_empty (lit "ac")
                        || (leb 3 (length (lit "ac")) && leb (length (lit "ac")) 32))))))
signup_validated_example = signup_validated whole address (lit "password") (lit "Eve") [] (lit "ac")

-- Four hundred events.
webhook_validated_example :
    passes (validate_struct whole (webhook_fields whole (lit "https://a.b") (some 400) [])) ≡ (
      (leb 1 (length (lit "https://a.b")) && leb (length (lit "https://a.b")) 512)
      && (is_given (some 400) && (true || (leb 16 0 && leb 0 128))))
webhook_validated_example = webhook_validated whole (lit "https://a.b") [] (some 400)
