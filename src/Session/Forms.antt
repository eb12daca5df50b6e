-- ===== src/Session/Forms.antt =====
-- The forms before the login: what is sent, and what a login leads to.
use iaas_platform.Base.{
  ◌⊎◌, inr, ℕ, ◌≤◌, ◌≡◌, refl, Bool, some, List, [], ◌∷◌, length, arith, if◌then◌else◌,
}
use iaas_platform.Base.Text.{Text, lit, text_eq}
use iaas_platform.Base.Text.Laws.{text_eq_iff}
use iaas_platform.Api.{User, AuthBody, reset_password, list_orgs}
use iaas_platform.World.{
  World, error, reset_done, View, dashboard, orgs, settings, Pending, dashboard_orgs, orgs_done,
}
use iaas_platform.World.Ops.{call, toast, get_main}
use iaas_platform.Session.{reset_password_clicked, open_session}

-- The first objection to the two fields of the reset form.
abbrev pub objection : Text → Text → Text
objection [] confirm = lit "Fill in both fields"
objection (c ∷ s) [] = lit "Fill in both fields"
objection (c ∷ s) (d ∷ t) =
    if text_eq (c ∷ s) (d ∷ t)
    then lit "Password must be at least 8 characters"
    else lit "Passwords do not match"

-- The reset form sends the new password and the token of the link if both fields agree and hold at
-- least 8 code units. Otherwise it only shows the first objection: an empty field, fields that
-- differ, or a password that is too short.
pub reset_password_clicked_cases :
    (password confirm : Text) (w : World)
    → ((password ≡ confirm)
        × (8 ≤ length password)
        × (reset_password_clicked password confirm w
            ≡ call (reset_password w.reset_token password) reset_done w))
      ⊎ ((¬ ((password ≡ confirm) × (8 ≤ length password)))
          × (reset_password_clicked password confirm w
              ≡ toast (objection password confirm) error w))
unfolding reset_password_clicked
reset_password_clicked_cases [] confirm w = inr (λ (same, long). absurd (omega arith), refl)
reset_password_clicked_cases (c ∷ s) [] w = inr (λ (same, long). cc, refl)
reset_password_clicked_cases (c ∷ s) (d ∷ t) w = ground (arith, text_eq_iff (c ∷ s) (d ∷ t))

-- The request that the page of each view begins with: the two lists ask for the organizations.
abbrev pub started : View → ℕ → Text → List Pending → List Pending
started dashboard m t old =
    record {
      requests = record { endpoint = list_orgs; authorization = some t } ∷ [];
      task = dashboard_orgs m;
    }
    ∷ old
started orgs m t old =
    record {
      requests = record { endpoint = list_orgs; authorization = some t } ∷ [];
      task = orgs_done m;
    }
    ∷ old
started settings m t old = old

-- After a login or a signup with a token that is not empty, the token is stored and in use, the
-- user is set, and the pages behind the login are open, in a new `#main`. The organizations are
-- asked for with that token, unless the last view was the settings, and nothing else is.
pub open_session-starts :
    (c : ℕ) (t : Text) (u : User) (pending_join : Bool) (w : World)
    → let b : AuthBody = record {
      token = some (c ∷ t);
      user = some u;
      org_join_pending = pending_join;
    } in
      let w' = open_session b w in
      (w'.state.token ≡ some (c ∷ t))
      × (w'.storage.token ≡ some (c ∷ t))
      × (w'.state.user ≡ some u)
      × (get_main w'.page ≡ some w.fresh)
      × (w'.pending ≡ started w.state.view w.fresh (c ∷ t) w.pending)
unfolding open_session get_main
open_session-starts c t u pending_join w = ground arith
