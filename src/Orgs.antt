-- ===== src/Orgs.antt =====
-- Creating an organization, of internal/dashboard/static/app.js: the slug that the form derives
-- from the name, and `createOrg`.
pub mod Slug
use iaas_platform.Base.{
  ℕ, ◌+◌, Bool, true, false, not, ◌&&◌, ◌||◌, List, [], ◌∷◌, ◌++◌, keep, leb, ◌==◌, if◌then◌else◌,
}
use iaas_platform.Base.Text.{Text, lit, is_empty, trim, is_digit}
use iaas_platform.Api.{Response, success, failure, create_org}
use iaas_platform.World.{World, Kind, error, org_form, org_created}
use iaas_platform.World.Ops.{call, toast, modal, add_activity_log, close_modal}
use iaas_platform.Pages.Frame.{render_view}
use iaas_platform.Tabs.Members.{after, close_or_throw}

unfoldable pub show_create_org : World → World
unfolding modal
show_create_org w = modal org_form w

-- The class `[a-z0-9-]`.
abbrev pub is_slug_char : ℕ → Bool
is_slug_char c = (leb b'a' c && leb c b'z') || is_digit c || c == b'-'

-- `toLowerCase` as far as the next step looks at it: of the other characters, only the Kelvin
-- sign and I with a dot have an ASCII letter in their lower case, and the rest are dropped.
unfoldable pub lower : ℕ → Text
lower c =
    if leb b'A' c && leb c b'Z'
    then (c + 32) ∷ []
    else if c == 0x212a
    then b'k' ∷ []
    else if c == 0x130
    then b'i' ∷ 0x307 ∷ []
    else c ∷ []

unfoldable pub to_lower_case : Text → Text
unfolding lower
to_lower_case [] = []
to_lower_case (c ∷ s) = lower c ++ to_lower_case s

-- `replace(/--+/g, '-')`
unfoldable pub collapse : Text → Text
collapse [] = []
collapse (c ∷ []) = c ∷ []
collapse (c ∷ d ∷ s) =
    let rest = collapse (d ∷ s) in if c == b'-' && d == b'-' then rest else c ∷ rest

-- The listener of the name's input.
unfoldable pub slug_of : Text → Text
unfolding to_lower_case collapse
slug_of name = collapse (keep is_slug_char (to_lower_case name))

-- `/^[a-z0-9-]+$/.test(slug)`
abbrev all_slug_chars : Text → Bool
all_slug_chars [] = true
all_slug_chars (c ∷ s) = is_slug_char c && all_slug_chars s

unfoldable pub is_slug : Text → Bool
is_slug [] = false
is_slug (c ∷ s) = all_slug_chars (c ∷ s)

-- `createOrg` after it has trimmed both inputs.
unfoldable pub send_org : Text → Text → World → World
unfolding is_slug toast call
send_org name slug w =
    if is_empty name
    then toast (lit "Organization name is required") error w
    else if is_empty slug
    then toast (lit "Slug is required") error w
    else if not (is_slug slug)
    then toast (lit "Slug must contain only lowercase letters, numbers, and hyphens") error w
    else call (create_org name slug) (org_created name) w

unfoldable pub create_clicked : Text → Text → World → World
unfolding trim send_org
create_clicked name slug w = send_org (trim name) (trim slug) w

unfoldable pub create_answered : Text → Response (Unit {0}) → World → World
unfolding toast add_activity_log close_modal render_view
create_answered name r w =
    after r (lit "Failed to create organization")
      (λ w.
        close_or_throw
          (λ w. render_view (toast (lit "✅ Organization created successfully") Kind.success w))
          (add_activity_log (lit "org.create") (lit "Created organization \"" ++ (name ++ lit "\""))
            w))
      w
