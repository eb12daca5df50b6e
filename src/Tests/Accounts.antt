-- ===== src/Tests/Accounts.antt =====
-- A reset of a password on concrete tables, with toy hash functions.
use iaas_platform.Base.{ℕ, ◌+◌, ◌≤◌, ◌≡◌, refl, true, false, none, some, [], ◌∷◌, arith}
use iaas_platform.Base.Text.{Text, lit, text_eq}
use iaas_platform.Base.Text.Laws.{text_eq_iff}
use iaas_platform.Server.Auth.{
  Accounts, User, PasswordReset, Hashes, Faults, Error, done, refused, find_by_email, find_by_id,
  find_by_token_hash, request_password_reset, reset_password, change_password, login,
}
use iaas_platform.Server.Auth.Tokens.{copies}
use iaas_platform.Server.Auth.Reset.{here, asks, waits, reset_token_once}
use iaas_platform.Server.Auth.Login.{reset_then_login}

-- A digest in front of the text, and a hash that is the password.
abbrev pub toy : Hashes
toy = record { digest = λ t. 35 ∷ t; generate = λ s p. some p; compare = λ h p. text_eq h p }

abbrev pub none_fails : Faults
none_fails = record {
  find_user = false;
  delete = false;
  create = false;
  mail = false;
  find_reset = false;
  update = false;
  mark = false;
  token = false;
}

abbrev dora : User
dora = record { id = 1; email = lit "dora@acme.test"; password_hash = lit "old" }

abbrev issued : PasswordReset
issued = record {
  id = 1;
  user_id = 1;
  token_hash = 35 ∷ lit "t1";
  expires_at = 5000;
  used_at = none;
}

abbrev accounts : Accounts
accounts = record { users = dora ∷ []; resets = issued ∷ []; next_id = 2; now = 1000 }

abbrev after_reset : Accounts
after_reset = (reset_password toy none_fails (lit "t1") 7 (lit "new") accounts).0

reset-done : (reset_password toy none_fails (lit "t1") 7 (lit "new") accounts).1 ≡ done
unfolding reset_password change_password find_by_token_hash find_by_id text_eq lit
reset-done = refl

one-copy : copies (35 ∷ lit "t1") accounts.resets ≤ 1
unfolding text_eq lit
one-copy = omega arith

other-token : text_eq (35 ∷ lit "t2") (35 ∷ lit "t1") ≡ false
unfolding text_eq lit
other-token = refl

-- A minute after another token was asked for.
abbrev later : Accounts
later =
    let v =
      (request_password_reset toy none_fails (lit "dora@acme.test") (lit "t2") 5000
        after_reset).0 in
    record v { now = v.now + 60 }

reset_token_once_example :
    (e : Error) × (reset_password toy none_fails (lit "t1") 8 (lit "newer") later
      ≡ (later, refused e))
reset_token_once_example =
    reset_token_once toy none_fails none_fails (lit "t1") 7 8 (lit "new") (lit "newer") accounts
      one-copy reset-done
      (waits (asks here none_fails (lit "dora@acme.test") (lit "t2") 5000 other-token) 60)

token-found : find_by_token_hash (35 ∷ lit "t1") accounts.resets ≡ some issued
unfolding find_by_token_hash text_eq lit
token-found = refl

dora-found : find_by_id 1 accounts.users ≡ some dora
unfolding find_by_id
dora-found = refl

dora-found_by_email : find_by_email (lit "dora@acme.test") accounts.users ≡ some dora
unfolding find_by_email text_eq lit
dora-found_by_email = refl

toy-accepts : (s : ℕ) (p h : Text) → toy.generate s p ≡ some h → toy.compare h p ≡ true
toy-accepts s p h e = (text_eq_iff h p).1 (ground (arith, e))

reset_then_login_example :
    login toy none_fails (lit "dora@acme.test") (lit "new") after_reset ≡ done
reset_then_login_example =
    reset_then_login toy none_fails none_fails (lit "t1") 7 (lit "new") accounts issued dora
      toy-accepts refl refl token-found dora-found dora-found_by_email reset-done
