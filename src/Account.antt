-- ===== src/Account.antt =====
-- The settings page's handlers, of internal/dashboard/static/app.js: the two switches, the forms
-- for a new password and for deleting the account. Neither form has a request behind it yet.
use iaas_platform.Base.{Bool, not, ◌||◌, Option, none, some, length, ltb, if◌then◌else◌}
use iaas_platform.Base.Text.{Text, lit, text_eq, is_empty}
use iaas_platform.Api.{User}
use iaas_platform.World.{World, Settings, Storage, error, info, password_form, delete_account_form}
use iaas_platform.World.{Kind}
use iaas_platform.World.Ops.{toast, modal, close_modal}

pub data SettingKey : Type 0 where
  email_notifications auto_refresh : SettingKey

abbrev put_setting : SettingKey → Bool → Settings → Settings
put_setting email_notifications v s = record s { email_notifications = v }
put_setting auto_refresh v s = record s { auto_refresh = v }

abbrev put_stored : SettingKey → Bool → Storage → Storage
put_stored email_notifications v s = record s { email_notifications = some v }
put_stored auto_refresh v s = record s { auto_refresh = some v }

unfoldable pub update_setting : SettingKey → Bool → World → World
unfolding toast
update_setting key value w = toast (lit "Setting updated") Kind.success (record w {
  state = record (w.state) { settings = put_setting key value w.state.settings };
  storage = put_stored key value w.storage;
})

unfoldable pub show_change_password_modal : World → World
unfolding modal
show_change_password_modal w = modal password_form w

unfoldable pub change_password : Text → Text → Text → World → World
unfolding toast text_eq close_modal
change_password current next confirm w =
    if is_empty current || is_empty next || is_empty confirm
    then toast (lit "All fields are required") error w
    else if not (text_eq next confirm)
    then toast (lit "Passwords do not match") error w
    else if ltb (length next) 8
    then toast (lit "Password must be at least 8 characters") error w
    else close_modal (toast (lit "Password change feature coming soon") info w)

abbrev email_of : Option User → Option Text
email_of none = none
email_of (some u) = some u.email

unfoldable pub show_delete_account_modal : World → World
unfolding modal
show_delete_account_modal w = modal (delete_account_form (email_of w.state.user)) w

-- Without a user the address is `undefined`, which no input equals.
unfoldable pub delete_account : Text → World → World
unfolding toast text_eq
delete_account input w = elim (email_of w.state.user) [
  | none ↦ toast (lit "Email does not match") error w
  | some email ↦
      if text_eq input email
      then toast (lit "Account deletion feature coming soon") info w
      else toast (lit "Email does not match") error w
]
