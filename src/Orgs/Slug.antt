-- ===== src/Orgs/Slug.antt =====
-- The slug that the form derives from a name.
use iaas_platform.Base.{
  ℕ, ◌≡◌, refl, ◌≢◌, inl, inr, true, false, ◌&&◌, [], ◌∷◌, ◌++◌, keep, arith, All, ◌==◌, Bool-cases,
  sym, ◌∙◌, ap,
}
use iaas_platform.Base.Text.{Text, trim, trim_start}
use mathlib.Core.List.{reverse, reverse-cons, reverse-reverse}
use iaas_platform.Api.{create_org}
use iaas_platform.World.{World, org_created}
use iaas_platform.World.Ops.{call}
use iaas_platform.Orgs.{
  create_clicked, send_org, all_slug_chars, is_slug_char, collapse, slug_of, is_slug, to_lower_case,
  lower,
}

abbrev IsSlugText : Text → Type 0
IsSlugText s = All (λ c. is_slug_char c ≡ true) s

-- No two hyphens in a row.
abbrev pub HasNoDouble : Text → Type 0
HasNoDouble [] = Unit
HasNoDouble (c ∷ []) = Unit
HasNoDouble (c ∷ d ∷ s) = ¬ ((c ≡ b'-') × (d ≡ b'-')) × HasNoDouble (d ∷ s)

keep-IsSlugText : (s : Text) → IsSlugText (keep is_slug_char s)
keep-IsSlugText [] = tt
keep-IsSlugText (c ∷ s) = elim (Bool-cases (is_slug_char c)) [
  | inl fits ↦ rw fits (fits, keep-IsSlugText s)
  | inr bad ↦ rw bad (keep-IsSlugText s)
]

collapse-IsSlugText : (s : Text) → IsSlugText s → IsSlugText (collapse s)
unfolding collapse
collapse-IsSlugText [] h = tt
collapse-IsSlugText (c ∷ []) h = h
collapse-IsSlugText (c ∷ d ∷ s) h = elim (Bool-cases (c == b'-' && d == b'-')) [
  | inl both ↦ rw both (collapse-IsSlugText (d ∷ s) h.1)
  | inr other ↦ rw other (h.0, collapse-IsSlugText (d ∷ s) h.1)
]

-- What `collapse` returns for a text that begins with `d` begins with `d`.
abbrev StartsWith : ℕ → Text → Type 0
StartsWith d [] = ⊥
StartsWith d (c ∷ s) = c ≡ d

collapse-StartsWith : (d : ℕ) (s : Text) → StartsWith d (collapse (d ∷ s))
unfolding collapse
collapse-StartsWith d [] = refl
collapse-StartsWith d (e ∷ s) = elim (Bool-cases (d == b'-' && e == b'-')) [
  | inl both ↦ let same : d ≡ e = ground arith in rw (both, same) (collapse-StartsWith e s)
  | inr other ↦ rw other refl
]

HasNoDouble-cons :
    (c d : ℕ) (s : Text)
    → ¬ ((c ≡ b'-') × (d ≡ b'-'))
    → StartsWith d s
    → HasNoDouble s
    → HasNoDouble (c ∷ s)
HasNoDouble-cons c d [] n st h = tt
HasNoDouble-cons c d (e ∷ s) n st h = (λ (p, q). n (p, sym st ∙ q), h)

collapse-HasNoDouble : (s : Text) → HasNoDouble (collapse s)
unfolding collapse
collapse-HasNoDouble [] = tt
collapse-HasNoDouble (c ∷ []) = tt
collapse-HasNoDouble (c ∷ d ∷ s) = elim (Bool-cases (c == b'-' && d == b'-')) [
  | inl both ↦ rw both (collapse-HasNoDouble (d ∷ s))
  | inr other ↦ rw other (
      HasNoDouble-cons c d (collapse (d ∷ s)) (ground arith) (collapse-StartsWith d s)
        (collapse-HasNoDouble (d ∷ s)))
]

collapse-of_HasNoDouble : (s : Text) → HasNoDouble s → collapse s ≡ s
unfolding collapse
collapse-of_HasNoDouble [] h = refl
collapse-of_HasNoDouble (c ∷ []) h = refl
collapse-of_HasNoDouble (c ∷ d ∷ s) h =
    let differ : (c == b'-' && d == b'-') ≡ false = ground arith in
    rw differ (ap (λ (t : Text). c ∷ t) (collapse-of_HasNoDouble (d ∷ s) h.1))

keep-of_IsSlugText : (s : Text) → IsSlugText s → keep is_slug_char s ≡ s
keep-of_IsSlugText [] h = refl
keep-of_IsSlugText (c ∷ s) h = rw h.0 (ap (λ (t : Text). c ∷ t) (keep-of_IsSlugText s h.1))

lower-of_slug_char : (c : ℕ) → is_slug_char c ≡ true → lower c ≡ c ∷ []
unfolding lower
lower-of_slug_char c h = ground arith

to_lower_case-of_IsSlugText : (s : Text) → IsSlugText s → to_lower_case s ≡ s
unfolding to_lower_case
to_lower_case-of_IsSlugText [] h = refl
to_lower_case-of_IsSlugText (c ∷ s) h =
    ground (arith, lower-of_slug_char c h.0, to_lower_case-of_IsSlugText s h.1)

slug_of-IsSlugText : (name : Text) → IsSlugText (slug_of name)
unfolding slug_of
slug_of-IsSlugText name = collapse-IsSlugText _ (keep-IsSlugText (to_lower_case name))

slug_of-HasNoDouble : (name : Text) → HasNoDouble (slug_of name)
unfolding slug_of
slug_of-HasNoDouble name = collapse-HasNoDouble (keep is_slug_char (to_lower_case name))

slug_of-of_slug : (s : Text) → IsSlugText s → HasNoDouble s → slug_of s ≡ s
unfolding slug_of
slug_of-of_slug s h n =
    rw (to_lower_case-of_IsSlugText s h, keep-of_IsSlugText s h) (collapse-of_HasNoDouble s n)

-- The slug that the form derives has no two hyphens in a row, and deriving a slug from it again
-- changes nothing.
pub slug_of_idempotent :
    (name : Text) → HasNoDouble (slug_of name) × (slug_of (slug_of name) ≡ slug_of name)
slug_of_idempotent name = (
  slug_of-HasNoDouble name,
  slug_of-of_slug (slug_of name) (slug_of-IsSlugText name) (slug_of-HasNoDouble name),
)

trim_start-of_IsSlugText : (s : Text) → IsSlugText s → trim_start s ≡ s
unfolding trim_start
trim_start-of_IsSlugText [] h = refl
trim_start-of_IsSlugText (c ∷ s) h = ground arith

All-append : (s t : Text) → IsSlugText s → IsSlugText t → IsSlugText (s ++ t)
All-append [] t h k = k
All-append (c ∷ s) t h k = (h.0, All-append s t h.1 k)

reverse-IsSlugText : (s : Text) → IsSlugText s → IsSlugText (reverse s)
reverse-IsSlugText [] h = tt
reverse-IsSlugText (c ∷ s) h =
    rw reverse-cons (All-append (reverse s) (c ∷ []) (reverse-IsSlugText s h.1) (h.0, tt))

trim-of_IsSlugText : (s : Text) → IsSlugText s → trim s ≡ s
unfolding trim
trim-of_IsSlugText s h =
    rw (trim_start-of_IsSlugText s h, trim_start-of_IsSlugText _ (reverse-IsSlugText s h))
      (reverse-reverse s)

all_slug_chars-of_IsSlugText : (s : Text) → IsSlugText s → all_slug_chars s ≡ true
all_slug_chars-of_IsSlugText [] h = refl
all_slug_chars-of_IsSlugText (c ∷ s) h = ground (arith, all_slug_chars-of_IsSlugText s h.1)

is_slug-of_IsSlugText : (s : Text) → IsSlugText s → s ≢ [] → is_slug s ≡ true
unfolding is_slug
is_slug-of_IsSlugText [] h n = absurd (n refl)
is_slug-of_IsSlugText (c ∷ s) h n = all_slug_chars-of_IsSlugText (c ∷ s) h

send_org-of_slug :
    (name slug : Text) (w : World)
    → name ≢ []
    → slug ≢ []
    → is_slug slug ≡ true
    → send_org name slug w ≡ call (create_org name slug) (org_created name) w
unfolding send_org
send_org-of_slug [] slug w n s fits = absurd (n refl)
send_org-of_slug (c ∷ name) [] w n s fits = absurd (s refl)
send_org-of_slug (c ∷ name) (d ∷ slug) w n s fits = ground arith

create_clicked_lem :
    (name slug : Text) (w : World) → create_clicked name slug w ≡ send_org (trim name) (trim slug) w
unfolding create_clicked
create_clicked_lem name slug w = refl

-- With a name that is not blank and the slug that the form derives, `createOrg` raises none of its
-- three objections, unless nothing is left of the slug: it sends the trimmed name and that slug.
pub create_clicked-slug_of :
    (name typed : Text) (w : World)
    → trim name ≢ []
    → slug_of typed ≢ []
    → create_clicked name (slug_of typed) w
      ≡ call (create_org (trim name) (slug_of typed)) (org_created (trim name)) w
create_clicked-slug_of name typed w n s =
    let h = slug_of-IsSlugText typed in
    rw (create_clicked_lem, trim-of_IsSlugText (slug_of typed) h)
      (send_org-of_slug (trim name) (slug_of typed) w n s
        (is_slug-of_IsSlugText (slug_of typed) h s))
