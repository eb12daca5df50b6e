-- ===== src/Server/Auth/Reset.antt =====
-- What follows a reset of a password: internal/auth/service.go.
use iaas_platform.Base.{
  ℕ, ◌+◌, ◌≤◌, ◌≡◌, refl, ap, sym, ◌∙◌, ◌⊎◌, inl, inr, true, false, some, arith, Option-cases,
  Bool-cases,
}
use iaas_platform.Base.Text.{Text, text_eq}
use iaas_platform.Server.Auth.{
  Accounts, PasswordReset, Hashes, Faults, Error, internal, invalid_reset_token, Outcome, done,
  refused, find_by_token_hash, is_unused, is_valid, request_password_reset, change_password,
  reset_password,
}
use iaas_platform.Server.Auth.Tokens.{
  copies, Spent, is_done, change_password-cases, unspent-find, unspent-mark_used,
  unspent-mark_used_own, request_password_reset-Spent,
}

-- The requests and resets that may follow each other, and the clock; no token that is made later has
-- this digest.
pub data Later (c : Hashes) (d : Text) (w : Accounts) : Accounts → Type 0 where
  here : Later c d w w
  asks :
      {v : Accounts}
      → Later c d w v
      → (f : Faults) (email token : Text) (ttl : ℕ) → text_eq (c.digest token) d ≡ false
      → Later c d w (request_password_reset c f email token ttl v).0
  resets :
      {v : Accounts}
      → Later c d w v
      → (f : Faults) (token : Text) (salt : ℕ) (password : Text)
      → Later c d w (reset_password c f token salt password v).0
  waits : {v : Accounts} → Later c d w v → (ms : ℕ) → Later c d w (record v { now = v.now + ms })

-- A reset without effect, or one of a token that was found.
reset_password-cases :
    (c : Hashes) (f : Faults) (token : Text) (salt : ℕ) (password : Text) (w : Accounts)
    → ((e : Error) × (reset_password c f token salt password w ≡ (w, refused e)))
      ⊎ ((r : PasswordReset) × (find_by_token_hash (c.digest token) w.resets ≡ some r)
          × (is_unused r ≡ true)
          × (reset_password c f token salt password w ≡ change_password c f r salt password w))
unfolding reset_password
reset_password-cases c f token salt password w = elim (Bool-cases f.find_reset) [
  | inl a ↦ inl (internal, simp (a, reset_password) refl)
  | inr a ↦ elim (Option-cases (find_by_token_hash (c.digest token) w.resets)) [
    | inl n ↦ inl (invalid_reset_token, simp (a, n, reset_password) refl)
    | inr (r, n) ↦ elim (Bool-cases (is_valid w.now r)) [
      | inl v ↦ inr (r, n, ground (arith, v), simp (a, n, v, reset_password) refl)
      | inr v ↦ inl (invalid_reset_token, simp (a, n, v, reset_password) refl)
    ]
  ]
]

change_password-Spent :
    (d : Text) (c : Hashes) (f : Faults) (r : PasswordReset) (salt : ℕ) (password : Text)
    (w : Accounts)
    → Spent d w
    → Spent d (change_password c f r salt password w).0
change_password-Spent d c f r salt password w h =
    elim (change_password-cases c f r salt password w) [
      | inl (same, n) ↦ rw same h
      | inr used ↦ rw used (unspent-mark_used d r.id w.now w.resets h)
    ]

reset_password-Spent :
    (d : Text) (c : Hashes) (f : Faults) (token : Text) (salt : ℕ) (password : Text) (w : Accounts)
    → Spent d w
    → Spent d (reset_password c f token salt password w).0
reset_password-Spent d c f token salt password w h =
    elim (reset_password-cases c f token salt password w) [
      | inl (e, same) ↦ rw same h
      | inr (r, n, u, e) ↦ rw e (change_password-Spent d c f r salt password w h)
    ]

Later-Spent : (c : Hashes) (d : Text) {w v : Accounts} → Later c d w v → Spent d w → Spent d v
Later-Spent c d here h = h
Later-Spent c d (asks {v} l f email token ttl n) h =
    request_password_reset-Spent d c f email token ttl v n (Later-Spent c d l h)
Later-Spent c d (resets {v} l f token salt password) h =
    reset_password-Spent d c f token salt password v (Later-Spent c d l h)
Later-Spent c d (waits l ms) h = Later-Spent c d l h

-- A reset that succeeds leaves no token with that digest that can be used.
done-Spent :
    (c : Hashes) (f : Faults) (token : Text) (salt : ℕ) (password : Text) (w : Accounts)
    → copies (c.digest token) w.resets ≤ 1
    → (reset_password c f token salt password w).1 ≡ done
    → Spent (c.digest token) (reset_password c f token salt password w).0
done-Spent c f token salt password w one ok =
    elim (reset_password-cases c f token salt password w) [
      | inl (e, same) ↦
          let bad : false ≡ true =
            ap is_done (sym (ap (λ (v : Accounts × Outcome). v.1) same) ∙ ok) in
          ground (arith, bad)
      | inr (r, n, u, e) ↦ elim (change_password-cases c f r salt password w) [
        | inl (same, bad) ↦
            let wrong : false ≡ true =
              sym bad ∙ ap is_done (sym (ap (λ (v : Accounts × Outcome). v.1) e) ∙ ok) in
            ground (arith, wrong)
        | inr used ↦ rw (e, used) (unspent-mark_used_own (c.digest token) w.now w.resets r one n)
      ]
    ]

-- A reset token is good for one reset that succeeds: after a reset that was reported as done, so that
-- the token was marked as used too, every later reset with it is refused and changes nothing, after
-- any requests and resets for any account and any delays in between, whichever of their calls fail;
-- where the table held one row of its digest and no token made later has the same digest.
pub reset_token_once :
    (c : Hashes) (f g : Faults) (token : Text) (salt salt' : ℕ) (password password' : Text)
    (w : Accounts) {v : Accounts}
    → copies (c.digest token) w.resets ≤ 1
    → (reset_password c f token salt password w).1 ≡ done
    → Later c (c.digest token) (reset_password c f token salt password w).0 v
    → (e : Error) × (reset_password c g token salt' password' v ≡ (v, refused e))
reset_token_once c f g token salt salt' password password' w {v} one ok later =
    let spent =
      Later-Spent c (c.digest token) later (done-Spent c f token salt password w one ok) in
    elim (reset_password-cases c g token salt' password' v) [
      | inl h ↦ h
      | inr (r, n, u, e) ↦
          let bad : true ≡ false = sym u ∙ unspent-find (c.digest token) v.resets r spent n in
          ground (arith, bad)
    ]
