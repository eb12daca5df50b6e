-- ===== src/Server/Auth/Kept.antt =====
-- What signups leave of the accounts and the join requests that there are: internal/auth/service.go.
use iaas_platform.Base.{
  ℕ, suc, ◌≤◌, ◌<◌, ◌≡◌, refl, ◌∙◌, inl, inr, false, Option, none, some, List, [], ◌∷◌, ◌++◌, ◌||◌,
  any, arith, Bool-cases, Option-cases,
}
use iaas_platform.Base.Text.{Text, text_eq}
use iaas_platform.Server.{Lookup, found, missing, broken}
use iaas_platform.Server.Auth.{Hashes}
use iaas_platform.Server.Orgs.{Organization, JoinRequest, has_request}
use iaas_platform.Server.Auth.Signup.{
  Account, Registry, Faults, SignupRequest, find_account, resolve, key_of, new_account,
  add_join_request, create_user, signup,
}

-- The tables after the insert of the user.
abbrev pub with_account : Account → Registry → Registry
with_account u w = record w { accounts = w.accounts ++ (u ∷ []); next_user = suc w.next_user }

-- Signups one after the other, with any failing calls.
pub data Signups (c : Hashes) (w : Registry) : Registry → Type 0 where
  here : Signups c w w
  signs :
      {v : Registry}
      → Signups c w v
      → (f : Faults) (salt : ℕ) (hex : Option Text) (r : SignupRequest)
      → Signups c w (signup c f salt hex r v).0

-- What a signup leaves of the accounts and of the requests of the users that there are.
pub record IsKept (w v : Registry) : Type 0 where
  pub accounts :
      (e : Text) (u : Account)
      → find_account e w.accounts ≡ some u
      → find_account e v.accounts ≡ some u
  pub requests :
      (org user : ℕ)
      → user < w.next_user
      → has_request org user v.requests ≡ has_request org user w.requests
  pub next_user : w.next_user ≤ v.next_user

find_account-keeps :
    (e : Text) (u : Account) (l r : List Account)
    → find_account e l ≡ some u
    → find_account e (l ++ r) ≡ some u
unfolding find_account
find_account-keeps e u [] r h = ground arith
find_account-keeps e u (x ∷ l) r h = ground (arith, h, find_account-keeps e u l r)

has_request-other :
    (org user o id : ℕ) (l : List JoinRequest)
    → user < id
    → has_request org user (l ++ (record { organization_id = o; user_id = id } ∷ []))
      ≡ has_request org user l
unfolding has_request
has_request-other org user o id [] h = ground (arith, h)
has_request-other org user o id (x ∷ l) h = ground (arith, has_request-other org user o id l h)

IsKept-refl : (w : Registry) → IsKept w w
IsKept-refl w = record {
  accounts = λ e u h. h;
  requests = λ org user h. refl;
  next_user = omega arith;
}

with_account-IsKept : (u : Account) (w : Registry) → IsKept w (with_account u w)
with_account-IsKept u w = record {
  accounts = λ e x h. find_account-keeps e x w.accounts (u ∷ []) h;
  requests = λ org user h. refl;
  next_user = omega arith;
}

-- With the join request of the new user.
with_request-IsKept :
    (u : Account) (org : ℕ) (w : Registry)
    → u.id ≡ w.next_user
    → IsKept w (record (with_account u w) {
      requests = w.requests ++ (record { organization_id = org; user_id = u.id } ∷ []);
    })
with_request-IsKept u org w i = record {
  accounts = λ e x h. find_account-keeps e x w.accounts (u ∷ []) h;
  requests = λ o user h. has_request-other o user org u.id w.requests (omega (arith, i, h));
  next_user = omega arith;
}

create_user-IsKept :
    (c : Hashes) (f : Faults) (o : Option Organization) (email h key : Text) (w : Registry)
    → IsKept w (create_user f o (new_account c w.next_user email h key) key w).0
unfolding create_user add_join_request
create_user-IsKept c f o email h key w =
    let u = new_account c w.next_user email h key in
    elim (Bool-cases (
      f.insert
      || any (λ (a : Account). text_eq a.email u.email || text_eq a.api_key u.api_key)
          w.accounts)) [
            | inl n ↦ rw (n, create_user) (IsKept-refl w)
            | inr n ↦ rw (n, create_user) (joined u o refl)
          ]
  where
    joined :
        (u : Account) (o : Option Organization)
        → u.id ≡ w.next_user
        → IsKept w (add_join_request f o u key (with_account u w)).0
    joined u none i = elim (Bool-cases f.token) [
      | inl t ↦ rw (t, add_join_request) (with_account-IsKept u w)
      | inr t ↦ rw (t, add_join_request) (with_account-IsKept u w)
    ]
    joined u (some x) i = elim (Bool-cases (f.join || has_request x.id u.id w.requests)) [
      | inl j ↦ rw (j, add_join_request) (with_account-IsKept u w)
      | inr j ↦ elim (Bool-cases f.token) [
        | inl t ↦ rw (j, t, add_join_request) (with_request-IsKept u x.id w i)
        | inr t ↦ rw (j, t, add_join_request) (with_request-IsKept u x.id w i)
      ]
    ]

resolved-IsKept :
    (c : Hashes) (f : Faults) (salt : ℕ) (hex : Option Text) (r : SignupRequest) (w : Registry)
    → f.find_user ≡ false
    → find_account r.email w.accounts ≡ none
    → (x : Lookup (Option Organization)) → resolve f r.org_slug w ≡ x
    → IsKept w (signup c f salt hex r w).0
unfolding signup
resolved-IsKept c f salt hex r w e g missing i = simp (e, g, i, signup) (IsKept-refl w)
resolved-IsKept c f salt hex r w e g broken i = simp (e, g, i, signup) (IsKept-refl w)
resolved-IsKept c f salt hex r w e g (found o) i =
    elim (Option-cases (c.generate salt r.password)) [
      | inl j ↦ simp (e, g, i, j, signup) (IsKept-refl w)
      | inr (h, j) ↦ elim (Option-cases hex) [
        | inl k ↦ simp (e, g, i, j, k, signup) (IsKept-refl w)
        | inr (k, l) ↦
            simp (e, g, i, j, l, signup) (create_user-IsKept c f o r.email h (key_of k) w)
      ]
    ]

signup-IsKept :
    (c : Hashes) (f : Faults) (salt : ℕ) (hex : Option Text) (r : SignupRequest) (w : Registry)
    → IsKept w (signup c f salt hex r w).0
unfolding signup
signup-IsKept c f salt hex r w = elim (Bool-cases f.find_user) [
  | inl e ↦ simp (e, signup) (IsKept-refl w)
  | inr e ↦ elim (Option-cases (find_account r.email w.accounts)) [
    | inr (a, g) ↦ simp (e, g, signup) (IsKept-refl w)
    | inl g ↦ resolved-IsKept c f salt hex r w e g (resolve f r.org_slug w) refl
  ]
]

pub Signups-IsKept : (c : Hashes) {w v : Registry} → Signups c w v → IsKept w v
Signups-IsKept c {w} here = IsKept-refl w
Signups-IsKept c (signs {v} l f salt hex r) =
    let a = Signups-IsKept c l in
    let b = signup-IsKept c f salt hex r v in
    record {
      accounts = λ e u h. b.accounts e u (a.accounts e u h);
      requests =
          λ org user h. b.requests org user (omega (arith, h, a.next_user)) ∙ a.requests org user h;
      next_user = omega (arith, a.next_user, b.next_user);
    }
