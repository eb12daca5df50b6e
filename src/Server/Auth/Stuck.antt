-- ===== src/Server/Auth/Stuck.antt =====
-- A signup whose join request fails: internal/auth/service.go.
use iaas_platform.Base.{
  ℕ, ◌≡◌, refl, ap, inl, inr, true, false, Option, none, some, List, [], ◌∷◌, ◌++◌, ◌||◌, any,
  arith, Bool-cases, if◌then◌else◌,
}
use mathlib.Core.Path.{subst}
use iaas_platform.Base.Text.{Text, text_eq}
use iaas_platform.Base.Text.Laws.{text_eq_refl}
use iaas_platform.Server.{found}
use iaas_platform.Server.Auth.{Hashes}
use iaas_platform.Server.Orgs.{Organization, has_request}
use iaas_platform.Server.Auth.Signup.{
  Account, Registry, Faults, email_taken, internal, SignupRequest, AuthResponse, Result, refused,
  find_account, resolve, key_of, new_account, add_join_request, create_user, signup,
}
use iaas_platform.Server.Auth.Kept.{with_account, Signups, IsKept, Signups-IsKept}

find_account-append :
    (l : List Account) (u : Account)
    → find_account u.email l ≡ none
    → find_account u.email (l ++ (u ∷ [])) ≡ some u
unfolding find_account
find_account-append [] u h = rw (text_eq_refl u.email) refl
find_account-append (x ∷ l) u h = ground (arith, h, find_account-append l u)

unjoined :
    (c : Hashes) (f : Faults) (salt : ℕ) (k h : Text) (r : SignupRequest) (w : Registry)
    (o : Organization)
    → f.find_user ≡ false
    → find_account r.email w.accounts ≡ none
    → resolve f r.org_slug w ≡ found (some o)
    → c.generate salt r.password ≡ some h
    → f.insert ≡ false
    → any
        (λ (x : Account). text_eq x.email r.email || text_eq x.api_key (c.digest (key_of k)))
        w.accounts
      ≡ false
    → f.join ≡ true
    → signup c f salt (some k) r w
      ≡ (with_account (new_account c w.next_user r.email h (key_of k)) w, refused internal)
unfolding signup create_user add_join_request
unjoined c f salt k h r w o a b d e i n j =
    simp (a, b, d, e, i, n, j, signup, create_user, add_join_request) refl

taken :
    (c : Hashes) (g : Faults) (salt : ℕ) (hex : Option Text) (r : SignupRequest) (v : Registry)
    (u : Account)
    → find_account r.email v.accounts ≡ some u
    → signup c g salt hex r v ≡ (v, refused (if g.find_user then internal else email_taken))
unfolding signup
taken c g salt hex r v u e = elim (Bool-cases g.find_user) [
  | inl a ↦ simp (a, signup) refl
  | inr a ↦ simp (a, e, signup) refl
]

-- A signup that asks to join an organization and whose join request cannot be stored reports an error
-- but has stored the account: no later signup stores a join request of its user, and each later
-- signup with the address is refused, because the address is taken wherever it can be looked up;
-- after any signups in between, and whichever of their calls fail.
pub signup_stuck :
    (c : Hashes) (f g : Faults) (salt salt' : ℕ) (k h : Text) (hex : Option Text)
    (r s : SignupRequest) (w : Registry) {v : Registry} (o : Organization)
    → f.find_user ≡ false
    → find_account r.email w.accounts ≡ none
    → resolve f r.org_slug w ≡ found (some o)
    → c.generate salt r.password ≡ some h
    → f.insert ≡ false
    → any
        (λ (x : Account). text_eq x.email r.email || text_eq x.api_key (c.digest (key_of k)))
        w.accounts
      ≡ false
    → f.join ≡ true
    → Signups c (signup c f salt (some k) r w).0 v
    → s.email ≡ r.email
    → ((signup c f salt (some k) r w).1 ≡ refused internal)
      × (has_request o.id w.next_user v.requests ≡ has_request o.id w.next_user w.requests)
      × (signup c g salt' hex s v ≡ (v, refused (if g.find_user then internal else email_taken)))
signup_stuck c f g salt salt' k h hex r s w {v} o a b d e i n j later m =
    let u = new_account c w.next_user r.email h (key_of k) in
    let q = unjoined c f salt k h r w o a b d e i n j in
    let kept : IsKept (with_account u w) v =
      subst (λ (x : Registry × Result AuthResponse). IsKept x.0 v) q (Signups-IsKept c later) in
    let stored : find_account s.email (w.accounts ++ (u ∷ [])) ≡ some u =
      rw m (find_account-append w.accounts u b) in
    (
      ap (λ x. x.1) q,
      kept.requests o.id w.next_user (omega arith),
      taken c g salt' hex s v u (kept.accounts s.email u stored),
    )
