-- ===== src/Server/Auth/Tokens.antt =====
-- The single use of a reset token: `RequestPasswordReset` and `ResetPassword` of
-- internal/auth/service.go.
use iaas_platform.Base.{
  ℕ, suc, ◌≤◌, ◌≡◌, refl, ◌⊎◌, inl, inr, Bool, true, false, ◌||◌, ◌&&◌, some, List, [], ◌∷◌, ◌++◌,
  any, arith, Option-cases, Bool-cases, if◌then◌else◌,
}
use iaas_platform.Base.Text.{Text, text_eq}
use iaas_platform.Server.Auth.{
  Accounts, PasswordReset, Hashes, Faults, Outcome, done, refused, find_by_email, find_by_id,
  find_by_token_hash, delete_for_user, mark_used, is_unused, store_reset, request_password_reset,
  change_password,
}

-- The rows with a digest; the unique index on `token_hash` allows one.
abbrev pub copies : Text → List PasswordReset → ℕ
copies d [] = 0
copies d (r ∷ l) = if text_eq r.token_hash d then suc (copies d l) else copies d l

-- No row with the digest can be used.
pub unspent : Text → List PasswordReset → Bool
unspent d l = any (λ (r : PasswordReset). text_eq r.token_hash d && is_unused r) l

abbrev pub Spent : Text → Accounts → Type 0
Spent d w = unspent d w.resets ≡ false

unspent-none :
    (d : Text) (id now : ℕ) (l : List PasswordReset)
    → copies d l ≡ 0
    → unspent d (mark_used id now l) ≡ false
unfolding unspent mark_used
unspent-none d id now [] h = refl
unspent-none d id now (r ∷ l) h = ground (arith, unspent-none d id now l)

pub unspent-mark_used_own :
    (d : Text) (now : ℕ) (l : List PasswordReset) (r : PasswordReset)
    → copies d l ≤ 1
    → find_by_token_hash d l ≡ some r
    → unspent d (mark_used r.id now l) ≡ false
unfolding unspent mark_used find_by_token_hash
unspent-mark_used_own d now [] r h e = ground arith
unspent-mark_used_own d now (x ∷ l) r h e =
    ground (arith, unspent-mark_used_own d now l r, unspent-none d r.id now l)

pub unspent-mark_used :
    (d : Text) (id now : ℕ) (l : List PasswordReset)
    → unspent d l ≡ false
    → unspent d (mark_used id now l) ≡ false
unfolding unspent mark_used
unspent-mark_used d id now [] h = refl
unspent-mark_used d id now (r ∷ l) h = ground (arith, unspent-mark_used d id now l)

unspent-delete_for_user :
    (d : Text) (user : ℕ) (l : List PasswordReset)
    → unspent d l ≡ false
    → unspent d (delete_for_user user l) ≡ false
unfolding unspent delete_for_user
unspent-delete_for_user d user [] h = refl
unspent-delete_for_user d user (r ∷ l) h = ground (arith, unspent-delete_for_user d user l)

unspent-append :
    (d : Text) (l : List PasswordReset) (r : PasswordReset)
    → text_eq r.token_hash d ≡ false
    → unspent d l ≡ false
    → unspent d (l ++ (r ∷ [])) ≡ false
unfolding unspent
unspent-append d [] r n h = ground arith
unspent-append d (x ∷ l) r n h = ground (arith, unspent-append d l r n)

pub unspent-find :
    (d : Text) (l : List PasswordReset) (r : PasswordReset)
    → unspent d l ≡ false
    → find_by_token_hash d l ≡ some r
    → is_unused r ≡ false
unfolding unspent find_by_token_hash
unspent-find d [] r h e = ground arith
unspent-find d (x ∷ l) r h e = ground (arith, unspent-find d l r)

store_reset-Spent :
    (d : Text) (f : Faults) (hash : Text) (user ttl : ℕ) (w : Accounts)
    → text_eq hash d ≡ false
    → Spent d w
    → Spent d (store_reset f hash user ttl w).0
unfolding store_reset
store_reset-Spent d f hash user ttl w n h =
    elim (Bool-cases
      (f.create || any (λ (r : PasswordReset). text_eq r.token_hash hash) w.resets)) [
        | inl b ↦ simp (b, store_reset) h
        | inr b ↦ simp (b, store_reset) (unspent-append d w.resets _ n h)
      ]

pub request_password_reset-Spent :
    (d : Text) (c : Hashes) (f : Faults) (email token : Text) (ttl : ℕ) (w : Accounts)
    → text_eq (c.digest token) d ≡ false
    → Spent d w
    → Spent d (request_password_reset c f email token ttl w).0
unfolding request_password_reset
request_password_reset-Spent d c f email token ttl w n h = elim (Bool-cases f.find_user) [
  | inl a ↦ simp (a, request_password_reset) h
  | inr a ↦ elim (Option-cases (find_by_email email w.users)) [
    | inl e ↦ simp (a, e, request_password_reset) h
    | inr (u, e) ↦ elim (Bool-cases f.delete) [
      | inl b ↦ simp (a, e, b, request_password_reset) h
      | inr b ↦
          let gone = unspent-delete_for_user d u.id w.resets h in
          elim (Bool-cases f.token) [
            | inl t ↦ simp (a, e, b, t, request_password_reset) gone
            | inr t ↦
                simp (a, e, b, t, request_password_reset)
                  (store_reset-Spent d f (c.digest token) u.id ttl
                    (record w { resets = delete_for_user u.id w.resets }) n gone)
          ]
    ]
  ]
]

abbrev pub is_done : Outcome → Bool
is_done done = true
is_done (refused e) = false

-- A reset that fails before the last call leaves the tokens.
abbrev pub ResetCase : PasswordReset → Accounts → Accounts × Outcome → Type 0
ResetCase r w v =
    ((v.0.resets ≡ w.resets) × (is_done v.1 ≡ false)) ⊎ (v.0.resets ≡ mark_used r.id w.now w.resets)

pub change_password-cases :
    (c : Hashes) (f : Faults) (r : PasswordReset) (salt : ℕ) (password : Text) (w : Accounts)
    → ResetCase r w (change_password c f r salt password w)
unfolding change_password
change_password-cases c f r salt password w = elim (Bool-cases f.find_user) [
  | inl a ↦ inl (simp (a, change_password) refl, simp (a, change_password) refl)
  | inr a ↦ elim (Option-cases (find_by_id r.user_id w.users)) [
    | inl u ↦ inl (simp (a, u, change_password) refl, simp (a, u, change_password) refl)
    | inr (x, u) ↦ elim (Option-cases (c.generate salt password)) [
      | inl g ↦ inl (simp (a, u, g, change_password) refl, simp (a, u, g, change_password) refl)
      | inr (k, g) ↦ elim (Bool-cases f.update) [
        | inl b ↦
            inl (simp (a, u, g, b, change_password) refl, simp (a, u, g, b, change_password) refl)
        | inr b ↦ elim (Bool-cases f.mark) [
          | inl m ↦ inl (
            simp (a, u, g, b, m, change_password) refl,
            simp (a, u, g, b, m, change_password) refl,
          )
          | inr m ↦ inr (simp (a, u, g, b, m, change_password) refl)
        ]
      ]
    ]
  ]
]
