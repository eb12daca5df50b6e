-- ===== src/Server/Auth.antt =====
-- Accounts of internal/auth/service.go over the tables of internal/database/users.go and
-- password_resets.go. SHA-256, bcrypt and the random tokens are parameters; times are in
-- milliseconds.
pub mod Tokens
pub mod Reset
pub mod Login
pub mod Signup
pub mod Stored
pub mod Joined
pub mod Kept
pub mod Stuck
pub mod Newcomer
use iaas_platform.Base.{
  ℕ, suc, ◌+◌, Bool, true, false, not, Option, none, some, List, [], ◌∷◌, ◌++◌, ◌||◌, any, find,
  keep, leb, ◌==◌, if◌then◌else◌,
}
use iaas_platform.Base.Text.{Text, text_eq}

pub record User : Type 0 where
  pub id : ℕ
  pub email : Text
  pub password_hash : Text

pub record PasswordReset : Type 0 where
  pub id : ℕ
  pub user_id : ℕ
  pub token_hash : Text
  pub expires_at : ℕ
  pub used_at : Option ℕ

pub record Accounts : Type 0 where
  pub users : List User
  pub resets : List PasswordReset
  pub next_id : ℕ
  pub now : ℕ

-- The hash functions: `HashAPIKey`, `GenerateFromPassword` with the salt that it draws, which fails
-- for a password that is too long, and `CompareHashAndPassword`.
pub record Hashes : Type 0 where
  pub digest : Text → Text
  pub generate : ℕ → Text → Option Text
  pub compare : Text → Text → Bool

-- The calls that fail.
pub record Faults : Type 0 where
  pub find_user : Bool
  pub delete : Bool
  pub create : Bool
  pub mail : Bool
  pub find_reset : Bool
  pub update : Bool
  pub mark : Bool
  pub token : Bool

pub data Error : Type 0 where
  invalid_credentials invalid_reset_token user_not_found internal : Error

pub data Outcome : Type 0 where
  done : Outcome
  refused : Error → Outcome

-- `FindByEmail`, `FindByID` and `UpdatePassword`
unfoldable pub find_by_email : Text → List User → Option User
find_by_email e l = find (λ (u : User). text_eq u.email e) l

unfoldable pub find_by_id : ℕ → List User → Option User
find_by_id id l = find (λ (u : User). u.id == id) l

unfoldable pub update_password : ℕ → Text → List User → List User
update_password id h [] = []
update_password id h (u ∷ l) =
    (if u.id == id then record u { password_hash = h } else u) ∷ update_password id h l

-- `FindByTokenHash`, `DeleteForUser` and `MarkUsed`
unfoldable pub find_by_token_hash : Text → List PasswordReset → Option PasswordReset
find_by_token_hash h l = find (λ (r : PasswordReset). text_eq r.token_hash h) l

unfoldable pub delete_for_user : ℕ → List PasswordReset → List PasswordReset
delete_for_user user l = keep (λ (r : PasswordReset). not (r.user_id == user)) l

unfoldable pub mark_used : ℕ → ℕ → List PasswordReset → List PasswordReset
mark_used id now [] = []
mark_used id now (r ∷ l) =
    (if r.id == id then record r { used_at = some now } else r) ∷ mark_used id now l

-- `UsedAt == nil` and `ExpiresAt.After(now)`
abbrev pub is_unused : PasswordReset → Bool
is_unused r = elim r.used_at [ none ↦ true | some t ↦ false ]

abbrev pub is_valid : ℕ → PasswordReset → Bool
is_valid now r = if is_unused r then not (leb r.expires_at now) else false

-- `Login`
unfoldable pub login : Hashes → Faults → Text → Text → Accounts → Outcome
unfolding find_by_email
login c f email password w =
    if f.find_user then refused internal else elim (find_by_email email w.users) [
      | none ↦ refused invalid_credentials
      | some u ↦
          if c.compare u.password_hash password
          then if f.token then refused internal else done
          else refused invalid_credentials
    ]

-- The new row, which the unique index on `token_hash` may refuse, and the mail.
unfoldable pub store_reset : Faults → Text → ℕ → ℕ → Accounts → Accounts × Outcome
unfolding find_by_token_hash
store_reset f hash user ttl w =
    if f.create || any (λ (r : PasswordReset). text_eq r.token_hash hash) w.resets
    then (w, refused internal)
    else (
      record w {
        resets =
            w.resets
            ++ (record {
              id = w.next_id;
              user_id = user;
              token_hash = hash;
              expires_at = w.now + ttl;
              used_at = none;
            }
                ∷ []);
        next_id = suc w.next_id;
      },
      if f.mail then refused internal else done,
    )

-- `RequestPasswordReset`, with the token that `generateResetToken` made.
unfoldable pub request_password_reset :
    Hashes → Faults → Text → Text → ℕ → Accounts → Accounts × Outcome
unfolding find_by_email delete_for_user store_reset
request_password_reset c f email token ttl w =
    if f.find_user then (w, refused internal) else elim (find_by_email email w.users) [
      | none ↦ (w, done)
      | some u ↦
          if f.delete
          then (w, refused internal)
          else let v = record w { resets = delete_for_user u.id w.resets } in
            if f.token then (v, refused internal) else store_reset f (c.digest token) u.id ttl v
    ]

-- The end of `ResetPassword`: the update of the user, then that of the token.
unfoldable pub change_password :
    Hashes → Faults → PasswordReset → ℕ → Text → Accounts → Accounts × Outcome
unfolding find_by_id update_password mark_used
change_password c f r salt password w =
    if f.find_user then (w, refused internal) else elim (find_by_id r.user_id w.users) [
      | none ↦ (w, refused user_not_found)
      | some u ↦ elim (c.generate salt password) [
        | none ↦ (w, refused internal)
        | some h ↦
            if f.update
            then (w, refused internal)
            else let v = record w { users = update_password u.id h w.users } in
              if f.mark
              then (v, refused internal)
              else (record v { resets = mark_used r.id w.now w.resets }, done)
      ]
    ]

-- `ResetPassword`
unfoldable pub reset_password : Hashes → Faults → Text → ℕ → Text → Accounts → Accounts × Outcome
unfolding find_by_token_hash change_password
reset_password c f token salt password w =
    if f.find_reset
    then (w, refused internal)
    else elim (find_by_token_hash (c.digest token) w.resets) [
      | none ↦ (w, refused invalid_reset_token)
      | some r ↦
          if is_valid w.now r
          then change_password c f r salt password w
          else (w, refused invalid_reset_token)
    ]
