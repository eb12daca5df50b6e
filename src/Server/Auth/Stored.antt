-- ===== src/Server/Auth/Stored.antt =====
-- The account that a signup stores: internal/auth/service.go.
use iaas_platform.Base.{
  ℕ, suc, ◌≡◌, refl, ap, ◌∙◌, inl, inr, Bool, true, false, Option, none, some, List, [], ◌∷◌, ◌++◌,
  ◌||◌, any, map, arith, Bool-cases, Option-cases,
}
use mathlib.Core.Path.{subst}
use iaas_platform.Base.Text.{Text, text_eq}
use iaas_platform.Base.Text.Laws.{text_eq_refl}
use iaas_platform.Server.{Lookup, found, missing, broken}
use iaas_platform.Server.Auth.{Hashes, find_by_email}
use iaas_platform.Server.Auth.Signup.{
  Account, Registry, Faults, SignupRequest, AuthResponse, Result, ok, refused, find_account,
  find_by_api_key_hash, resolve, key_of, new_account, add_join_request, create_user, signup,
  user_of,
}
use iaas_platform.Server.Orgs.{Organization, has_request}

-- Where the signup succeeds, the account is new under its address and its key, and is stored.
pub record Stored (c : Hashes) (r : SignupRequest) (w v : Registry) (a : AuthResponse)
    : Type 0 where
  pub id : ℕ
  pub salt : ℕ
  pub hash : Text
  pub digits : Text
  pub hashed : c.generate salt r.password ≡ some hash
  pub key : a.api_key ≡ key_of digits
  pub user : a.user ≡ new_account c id r.email hash (key_of digits)
  pub fresh :
      any
        (λ (x : Account). text_eq x.email a.user.email || text_eq x.api_key a.user.api_key)
        w.accounts
      ≡ false
  pub accounts : v.accounts ≡ w.accounts ++ (a.user ∷ [])

abbrev succeeded : Result AuthResponse → Bool
succeeded (ok a) = true
succeeded (refused e) = false

abbrev answer_or : AuthResponse → Result AuthResponse → AuthResponse
answer_or b (ok a) = a
answer_or b (refused e) = b

-- The account and the key that an answer has, if any, and the table.
abbrev Answers : Account → Text → Registry → Registry × Result AuthResponse → Type 0
Answers u k w (v, refused e) = Unit
Answers u k w (v, ok a) = (a.user ≡ u) × (a.api_key ≡ k) × (v.accounts ≡ w.accounts)

add_join_request-Answers :
    (f : Faults) (o : Option Organization) (u : Account) (k : Text) (w : Registry)
    → Answers u k w (add_join_request f o u k w)
unfolding add_join_request
add_join_request-Answers f none u k w = elim (Bool-cases f.token) [
  | inl e ↦ simp (e, add_join_request) tt
  | inr e ↦ simp (e, add_join_request) (refl, refl, refl)
]
add_join_request-Answers f (some o) u k w =
    elim (Bool-cases (f.join || has_request o.id u.id w.requests)) [
      | inl e ↦ simp (e, add_join_request) tt
      | inr e ↦ elim (Bool-cases f.token) [
        | inl g ↦ simp (e, g, add_join_request) tt
        | inr g ↦ simp (e, g, add_join_request) (refl, refl, refl)
      ]
    ]

module _ (c : Hashes) (f : Faults) (r : SignupRequest) (w : Registry) where
  abbrev pub SignupCase : Registry × Result AuthResponse → Type 0
  SignupCase (v, refused e) = Unit
  SignupCase (v, ok a) = Stored c r w v a

  created :
      (salt : ℕ) (h k : Text) (u : Account)
      → c.generate salt r.password ≡ some h
      → u ≡ new_account c w.next_user r.email h (key_of k)
      → any (λ (x : Account). text_eq x.email u.email || text_eq x.api_key u.api_key) w.accounts
        ≡ false
      → (v : Registry) → v.accounts ≡ w.accounts ++ (u ∷ [])
      → (x : Registry × Result AuthResponse) → Answers u (key_of k) v x
      → SignupCase x
  created salt h k u g e n v d (z, refused i) a = tt
  created salt h k u g e n v d (z, ok b) (i, j, l) = record {
    id = w.next_user;
    salt = salt;
    hash = h;
    digits = k;
    hashed = g;
    key = j;
    user = i ∙ e;
    fresh = rw i n;
    accounts = rw i (l ∙ d);
  }

  create_user-SignupCase :
      (o : Option Organization) (salt : ℕ) (h k : Text)
      → c.generate salt r.password ≡ some h
      → SignupCase (create_user f o (new_account c w.next_user r.email h (key_of k)) (key_of k) w)
  unfolding create_user
  create_user-SignupCase o salt h k g =
      let u = new_account c w.next_user r.email h (key_of k) in
      let v : Registry = record w {
        accounts = w.accounts ++ (u ∷ []);
        next_user = suc w.next_user;
      } in
      elim (Bool-cases (
        f.insert
        || any (λ (x : Account). text_eq x.email u.email || text_eq x.api_key u.api_key)
            w.accounts)) [
              | inl e ↦ simp (e, create_user) tt
              | inr e ↦
                  simp (e, create_user)
                    (created salt h k u g refl (ground (arith, e)) v refl _
                      (add_join_request-Answers f o u (key_of k) v))
            ]

  resolved-SignupCase :
      (salt : ℕ) (hex : Option Text)
      → f.find_user ≡ false
      → find_account r.email w.accounts ≡ none
      → (x : Lookup (Option Organization)) → resolve f r.org_slug w ≡ x
      → SignupCase (signup c f salt hex r w)
  unfolding signup
  resolved-SignupCase salt hex e g missing i = simp (e, g, i, signup) tt
  resolved-SignupCase salt hex e g broken i = simp (e, g, i, signup) tt
  resolved-SignupCase salt hex e g (found o) i = elim (Option-cases (c.generate salt r.password)) [
    | inl j ↦ simp (e, g, i, j, signup) tt
    | inr (h, j) ↦ elim (Option-cases hex) [
      | inl k ↦ simp (e, g, i, j, k, signup) tt
      | inr (k, l) ↦ simp (e, g, i, j, l, signup) (create_user-SignupCase o salt h k j)
    ]
  ]

  pub signup-SignupCase : (salt : ℕ) (hex : Option Text) → SignupCase (signup c f salt hex r w)
  unfolding signup
  signup-SignupCase salt hex = elim (Bool-cases f.find_user) [
    | inl e ↦ simp (e, signup) tt
    | inr e ↦ elim (Option-cases (find_account r.email w.accounts)) [
      | inr (a, g) ↦ simp (e, g, signup) tt
      | inl g ↦ resolved-SignupCase salt hex e g (resolve f r.org_slug w) refl
    ]
  ]

  pub ok-Stored :
      (x : Registry × Result AuthResponse) (a : AuthResponse)
      → SignupCase x
      → x.1 ≡ ok a
      → Stored c r w x.0 a
  ok-Stored (v, refused e) a s h = let wrong = ap succeeded h in ground (arith, wrong)
  ok-Stored (v, ok b) a s h =
      let same : b ≡ a = ap (answer_or b) h in subst (λ z. Stored c r w v z) same s

pub find_by_api_key_hash-append :
    (l : List Account) (u : Account)
    → any (λ (x : Account). text_eq x.email u.email || text_eq x.api_key u.api_key) l ≡ false
    → find_by_api_key_hash u.api_key (l ++ (u ∷ [])) ≡ some u
unfolding find_by_api_key_hash
find_by_api_key_hash-append [] u h = rw (text_eq_refl u.api_key) refl
find_by_api_key_hash-append (x ∷ l) u h = ground (arith, h, find_by_api_key_hash-append l u)

pub find_by_email-append :
    (l : List Account) (u : Account)
    → any (λ (x : Account). text_eq x.email u.email || text_eq x.api_key u.api_key) l ≡ false
    → find_by_email u.email (map user_of (l ++ (u ∷ []))) ≡ some (user_of u)
unfolding find_by_email
find_by_email-append [] u h = rw (text_eq_refl u.email) refl
find_by_email-append (x ∷ l) u h = ground (arith, h, find_by_email-append l u)
