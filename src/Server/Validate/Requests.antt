-- ===== src/Server/Validate/Requests.antt =====
-- What the validated requests satisfy: the tags of internal/models under internal/validate/validate.go.
use iaas_platform.Base.{
  ℕ, ◌≡◌, refl, ◌∙◌, Bool, true, false, ◌&&◌, ◌||◌, Option, none, some, List, [], ◌∷◌, length, leb,
  arith, Option-cases, inl, inr,
}
use iaas_platform.Base.Text.{Text, lit, text_eq, is_empty}
use iaas_platform.Server.Paging.{atoi, digits, all_digits, up_to}
use iaas_platform.Server.Validate.{
  Compare, string, slice, Field, Violation, split, behind, is_email, is_address, check_rules,
  check_rule, check_min, check_max, check_numbered, with_number, is_zero_value, validate_field,
  validate_struct,
}

abbrev pub is_given : Option ℕ → Bool
is_given none = false
is_given (some n) = true

abbrev pub passes : Option Violation → Bool
passes none = true
passes (some e) = false

module _ {Q : Type 0} (compare : Compare Q) where
  -- The fields of `SignupRequest` with their tags.
  abbrev pub signup_fields : Text → Text → Text → Text → Text → List (Field Q)
  unfolding lit
  signup_fields email password name organization org_slug =
      record { name = lit "email"; tag = lit "required,email"; value = string email }
      ∷ record { name = lit "password"; tag = lit "required,min=8"; value = string password }
      ∷ record { name = lit "name"; tag = lit "required,min=2,max=64"; value = string name }
      ∷ record {
        name = lit "organization";
        tag = lit "omitempty,max=64";
        value = string organization;
      }
      ∷ record {
        name = lit "org_slug";
        tag = lit "omitempty,min=3,max=32";
        value = string org_slug;
      }
      ∷ []

  -- The fields of `CreateWebhookRequest` with their tags; of the events, the length if they are there.
  abbrev pub webhook_fields : Text → Option ℕ → Text → List (Field Q)
  unfolding lit
  webhook_fields url events secret =
      record { name = lit "url"; tag = lit "required,max=512"; value = string url }
      ∷ record { name = lit "events"; tag = lit "required,max=20"; value = slice events }
      ∷ record { name = lit "secret"; tag = lit "omitempty,min=16,max=128"; value = string secret }
      ∷ []

  passes-cons :
      (f : Field Q) (l : List (Field Q))
      → is_empty f.tag ≡ false
      → passes (validate_struct compare (f ∷ l))
        ≡ (passes (validate_field compare f) && passes (validate_struct compare l))
  unfolding validate_struct
  passes-cons f l e = elim (Option-cases (validate_field compare f)) [
    | inl n ↦ simp (e, n) refl
    | inr (x, n) ↦ simp (e, n) refl
  ]

  passes-then :
      (f : Field Q) (l : List (Field Q)) (b c : Bool)
      → is_empty f.tag ≡ false
      → passes (validate_field compare f) ≡ b
      → passes (validate_struct compare l) ≡ c
      → passes (validate_struct compare (f ∷ l)) ≡ (b && c)
  passes-then f l b c e g h = passes-cons f l e ∙ rw (g, h) refl

  passes-last :
      (f : Field Q) (b : Bool)
      → is_empty f.tag ≡ false
      → passes (validate_field compare f) ≡ b
      → passes (validate_struct compare (f ∷ [])) ≡ b
  unfolding validate_struct
  passes-last f true e g = passes-cons f [] e ∙ rw g refl
  passes-last f false e g = passes-cons f [] e ∙ rw g refl

  abbrev passes_with : Text → Text → Text → Bool
  passes_with name tag s =
      passes (validate_field compare (record { name = name; tag = tag; value = string s }))

  email-tag : (name s : Text) → passes_with name (lit "required,email") s ≡ (is_address false s)
  unfolding validate_field split check_rules check_rule check_numbered with_number behind atoi
      digits all_digits up_to lit text_eq check_min check_max is_zero_value is_email
  email-tag name [] = refl
  email-tag name (c ∷ s) = ground arith

  password-tag : (name s : Text) → passes_with name (lit "required,min=8") s ≡ (leb 8 (length s))
  unfolding validate_field split check_rules check_rule check_numbered with_number behind atoi
      digits all_digits up_to lit text_eq check_min check_max is_zero_value is_email
  password-tag name [] = refl
  password-tag name (c ∷ s) = ground arith

  name-tag :
      (name s : Text)
      → passes_with name (lit "required,min=2,max=64") s ≡ (leb 2 (length s) && leb (length s) 64)
  unfolding validate_field split check_rules check_rule check_numbered with_number behind atoi
      digits all_digits up_to lit text_eq check_min check_max is_zero_value is_email
  name-tag name [] = refl
  name-tag name (c ∷ s) = ground arith

  organization-tag :
      (name s : Text) → passes_with name (lit "omitempty,max=64") s ≡ (leb (length s) 64)
  unfolding validate_field split check_rules check_rule check_numbered with_number behind atoi
      digits all_digits up_to lit text_eq check_min check_max is_zero_value is_email
  organization-tag name [] = refl
  organization-tag name (c ∷ s) = ground arith

  slug-tag :
      (name s : Text)
      → passes_with name (lit "omitempty,min=3,max=32") s
        ≡ (is_empty s || (leb 3 (length s) && leb (length s) 32))
  unfolding validate_field split check_rules check_rule check_numbered with_number behind atoi
      digits all_digits up_to lit text_eq check_min check_max is_zero_value is_email
  slug-tag name [] = refl
  slug-tag name (c ∷ s) = ground arith

  url-tag :
      (name s : Text)
      → passes_with name (lit "required,max=512") s ≡ (leb 1 (length s) && leb (length s) 512)
  unfolding validate_field split check_rules check_rule check_numbered with_number behind atoi
      digits all_digits up_to lit text_eq check_min check_max is_zero_value is_email
  url-tag name [] = refl
  url-tag name (c ∷ s) = ground arith

  secret-tag :
      (name s : Text)
      → passes_with name (lit "omitempty,min=16,max=128") s
        ≡ (is_empty s || (leb 16 (length s) && leb (length s) 128))
  unfolding validate_field split check_rules check_rule check_numbered with_number behind atoi
      digits all_digits up_to lit text_eq check_min check_max is_zero_value is_email
  secret-tag name [] = refl
  secret-tag name (c ∷ s) = ground arith

  events-tag :
      (name : Text) (l : Option ℕ)
      → passes (
          validate_field compare
            (record { name = name; tag = lit "required,max=20"; value = slice l }))
        ≡ is_given l
  unfolding validate_field split check_rules check_rule check_numbered with_number behind atoi
      digits all_digits up_to lit text_eq check_min check_max is_zero_value is_email
  events-tag name none = refl
  events-tag name (some n) = refl

  -- A signup passes the validation exactly if its email address has the form of the regular expression,
  -- its password has at least 8 code points, its name 2 to 64, its organization at most 64, and its
  -- slug 3 to 32 where it is not empty.
  pub signup_validated :
      (email password name organization org_slug : Text)
      → passes (validate_struct compare (signup_fields email password name organization org_slug))
        ≡ (is_address false email
            && (leb 8 (length password)
                && ((leb 2 (length name) && leb (length name) 64)
                    && (leb (length organization) 64
                        && (is_empty org_slug
                            || (leb 3 (length org_slug) && leb (length org_slug) 32))))))
  unfolding lit
  signup_validated email password name organization org_slug =
      passes-then _ _ _ _ refl (email-tag (lit "email") email) (
        passes-then _ _ _ _ refl (password-tag (lit "password") password) (
          passes-then _ _ _ _ refl (name-tag (lit "name") name) (
            passes-then _ _ _ _ refl (organization-tag (lit "organization") organization)
              (passes-last _ _ refl (slug-tag (lit "org_slug") org_slug)))))

  -- A request for a webhook passes the validation exactly if its URL has 1 to 512 code points, its list
  -- of events is there, and its secret has 16 to 128 code points where it is not empty: the tag
  -- max=20 of the events bounds nothing.
  pub webhook_validated :
      (url secret : Text) (events : Option ℕ)
      → passes (validate_struct compare (webhook_fields url events secret)) ≡ (
          (leb 1 (length url) && leb (length url) 512)
          && (is_given events
              && (is_empty secret || (leb 16 (length secret) && leb (length secret) 128))))
  unfolding lit
  webhook_validated url secret events = passes-then _ _ _ _ refl (url-tag (lit "url") url) (
      passes-then _ _ _ _ refl (events-tag (lit "events") events)
        (passes-last _ _ refl (secret-tag (lit "secret") secret)))
