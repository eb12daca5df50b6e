-- ===== src/Server/Auth/Login.antt =====
-- The login after a reset: internal/auth/service.go.
use iaas_platform.Base.{
  ℕ, ◌≡◌, refl, ap, sym, ◌∙◌, ◌⊎◌, inl, inr, true, false, some, List, [], ◌∷◌, arith, Option-cases,
  Bool-cases,
}
use iaas_platform.Base.Text.{Text}
use iaas_platform.Server.Auth.{
  Accounts, User, PasswordReset, Hashes, Faults, done, find_by_email, find_by_id,
  find_by_token_hash, is_valid, update_password, change_password, reset_password, login,
}
use iaas_platform.Server.Auth.Tokens.{is_done}

find_by_email-update_password :
    (e : Text) (h : Text) (l : List User) (u : User)
    → find_by_email e l ≡ some u
    → find_by_email e (update_password u.id h l) ≡ some (record u { password_hash = h })
unfolding find_by_email update_password
find_by_email-update_password e h [] u q = ground arith
find_by_email-update_password e h (x ∷ l) u q =
    ground (arith, find_by_email-update_password e h l u)

change_password-users :
    (c : Hashes) (f : Faults) (r : PasswordReset) (salt : ℕ) (password : Text) (w : Accounts)
    (u : User)
    → find_by_id r.user_id w.users ≡ some u
    → (is_done (change_password c f r salt password w).1 ≡ false)
      ⊎ ((h : Text) × (c.generate salt password ≡ some h)
          × ((change_password c f r salt password w).0.users ≡ update_password u.id h w.users))
unfolding change_password
change_password-users c f r salt password w u e = elim (Bool-cases f.find_user) [
  | inl a ↦ inl (simp (a, change_password) refl)
  | inr a ↦ elim (Option-cases (c.generate salt password)) [
    | inl g ↦ inl (simp (a, e, g, change_password) refl)
    | inr (h, g) ↦ elim (Bool-cases f.update) [
      | inl b ↦ inl (simp (a, e, g, b, change_password) refl)
      | inr b ↦ inr (
        h,
        g,
        elim (Bool-cases f.mark) [
          | inl m ↦ simp (a, e, g, b, m, change_password) refl
          | inr m ↦ simp (a, e, g, b, m, change_password) refl
        ],
      )
    ]
  ]
]

reset_password-users :
    (c : Hashes) (f : Faults) (token : Text) (salt : ℕ) (password : Text) (w : Accounts)
    (r : PasswordReset) (u : User)
    → find_by_token_hash (c.digest token) w.resets ≡ some r
    → find_by_id r.user_id w.users ≡ some u
    → (is_done (reset_password c f token salt password w).1 ≡ false)
      ⊎ ((h : Text) × (c.generate salt password ≡ some h)
          × ((reset_password c f token salt password w).0.users ≡ update_password u.id h w.users))
unfolding reset_password
reset_password-users c f token salt password w r u t e = elim (Bool-cases f.find_reset) [
  | inl a ↦ inl (simp (a, reset_password) refl)
  | inr a ↦ elim (Bool-cases (is_valid w.now r)) [
    | inr v ↦ inl (simp (a, t, v, reset_password) refl)
    | inl v ↦ elim (change_password-users c f r salt password w u e) [
      | inl n ↦ inl (simp (a, t, v, reset_password) n)
      | inr (h, g, q) ↦ inr (h, g, simp (a, t, v, reset_password) q)
    ]
  ]
]

pub login-found :
    (c : Hashes) (g : Faults) (email password : Text) (w : Accounts) (u : User)
    → g.find_user ≡ false
    → g.token ≡ false
    → find_by_email email w.users ≡ some u
    → c.compare u.password_hash password ≡ true
    → login c g email password w ≡ done
unfolding login
login-found c g email password w u a b e m = simp (a, b, e, m, login) refl

-- After a reset that succeeds, the account of the token logs in with the new password: where bcrypt
-- accepts the password that a hash was made from, the account is the one found by its address, and
-- no call of the login fails.
pub reset_then_login :
    (c : Hashes) (f g : Faults) (token : Text) (salt : ℕ) (password : Text) (w : Accounts)
    (r : PasswordReset) (u : User)
    → ((s : ℕ) (p h : Text) → c.generate s p ≡ some h → c.compare h p ≡ true)
    → g.find_user ≡ false
    → g.token ≡ false
    → find_by_token_hash (c.digest token) w.resets ≡ some r
    → find_by_id r.user_id w.users ≡ some u
    → find_by_email u.email w.users ≡ some u
    → (reset_password c f token salt password w).1 ≡ done
    → login c g u.email password (reset_password c f token salt password w).0 ≡ done
reset_then_login c f g token salt password w r u bcrypt a b t i e ok =
    elim (reset_password-users c f token salt password w r u t i) [
      | inl bad ↦ let wrong : false ≡ true = sym bad ∙ ap is_done ok in ground (arith, wrong)
      | inr (h, made, users) ↦
          let finds : find_by_email u.email (reset_password c f token salt password w).0.users
              ≡ some (record u { password_hash = h }) =
            rw users (find_by_email-update_password u.email h w.users u e) in
          login-found c g u.email password (reset_password c f token salt password w).0
            (record u { password_hash = h }) a b finds (bcrypt salt password h made)
    ]
