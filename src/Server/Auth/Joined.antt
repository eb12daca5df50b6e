-- ===== src/Server/Auth/Joined.antt =====
-- What a signup is good for: internal/auth/service.go and middleware.go.
use iaas_platform.Base.{ℕ, ◌≡◌, refl, sym, ap, ◌∙◌, true, false, Option, some, [], ◌++◌, map}
use iaas_platform.Base.Text.{Text, lit, is_empty}
use iaas_platform.Server.{Lookup, found}
use iaas_platform.Server.Auth.{Hashes, User, done, login, find_by_email}
use iaas_platform.Server.Auth
use iaas_platform.Server.Auth.Signup.{
  Account, Registry, Faults, SignupRequest, AuthResponse, ok, find_by_api_key_hash, key_of, signup,
  Claims, has_prefix, trim_prefix, extract_token, authenticate, for_token, middleware, login_tables,
  user_of,
}
use iaas_platform.Server.Auth.Login.{login-found}
use iaas_platform.Server.Auth.Stored.{
  signup-SignupCase, ok-Stored, find_by_api_key_hash-append, find_by_email-append,
}

bearer-extract_token : (k h : Text) → extract_token (lit "Bearer " ++ k) h ≡ k
unfolding extract_token has_prefix trim_prefix lit
bearer-extract_token k h = refl

empty-extract_token : (k : Text) → extract_token [] k ≡ k
unfolding extract_token has_prefix trim_prefix lit
empty-extract_token k = refl

key_of-prefix : (k : Text) → has_prefix (lit "iaas_") (key_of k) ≡ true
unfolding key_of has_prefix lit
key_of-prefix k = refl

key_of-nonempty : (k : Text) → is_empty (key_of k) ≡ false
unfolding key_of lit
key_of-nonempty k = refl

authenticate-found :
    (c : Hashes) (jwt : Text → Lookup Claims) (g : Faults) (k : Text) (v : Registry) (u : Account)
    → g.find_key ≡ false
    → has_prefix (lit "iaas_") k ≡ true
    → find_by_api_key_hash (c.digest k) v.accounts ≡ some u
    → authenticate c jwt g k v ≡ found (record { user_id = u.id; email = u.email; role = u.role })
unfolding authenticate
authenticate-found c jwt g k v u a p e = simp (a, p, e, authenticate) refl

middleware-token :
    (c : Hashes) (jwt : Text → Lookup Claims) (g : Faults) (header key k : Text) (v : Registry)
    → extract_token header key ≡ k
    → is_empty k ≡ false
    → middleware c jwt g header key v ≡ authenticate c jwt g k v
unfolding middleware for_token
middleware-token c jwt g header key k v e n = ap (for_token c jwt g v) e ∙ some_token
  where
    some_token : for_token c jwt g v k ≡ authenticate c jwt g k v
    some_token = rw (n, for_token) refl

abbrev pub acts_as : AuthResponse → Claims
acts_as a = record { user_id = a.user.id; email = a.user.email; role = a.user.role }

-- After a signup that succeeds, the account logs in with its address and password, and a request
-- that carries the API key of the answer, as a bearer token or in X-API-Key without a header
-- Authorization, acts as the new user, whose address is that of the signup and whose role is "user":
-- where bcrypt accepts the password that a hash was made from, and no call of the login or of the
-- search for the key fails.
pub signup_then_requests :
    (c : Hashes) (jwt : Text → Lookup Claims) (f g : Faults) (l : Auth.Faults) (salt : ℕ)
    (hex : Option Text) (r : SignupRequest) (w : Registry) (a : AuthResponse) (other : Text)
    → ((s : ℕ) (p h : Text) → c.generate s p ≡ some h → c.compare h p ≡ true)
    → g.find_key ≡ false
    → l.find_user ≡ false
    → l.token ≡ false
    → (signup c f salt hex r w).1 ≡ ok a
    → (login c l r.email r.password (login_tables (signup c f salt hex r w).0) ≡ done)
      × (middleware c jwt g (lit "Bearer " ++ a.api_key) other (signup c f salt hex r w).0
          ≡ found (acts_as a))
      × (middleware c jwt g [] a.api_key (signup c f salt hex r w).0 ≡ found (acts_as a))
      × (a.user.email ≡ r.email)
      × (a.user.role ≡ lit "user")
signup_then_requests c jwt f g l salt hex r w a other bcrypt n b t e =
    let v = (signup c f salt hex r w).0 in
    let s = ok-Stored c f r w (signup c f salt hex r w) a (signup-SignupCase c f r w salt hex) e in
    let email : a.user.email ≡ r.email = ap (λ z. z.email) s.user in
    let digest : c.digest a.api_key ≡ a.user.api_key =
      ap c.digest s.key ∙ sym (ap (λ z. z.api_key) s.user) in
    let by_key : find_by_api_key_hash (c.digest a.api_key) v.accounts ≡ some a.user =
      rw (s.accounts, digest) (find_by_api_key_hash-append w.accounts a.user s.fresh) in
    let by_email : find_by_email r.email (map user_of v.accounts) ≡ some (user_of a.user) =
      rw (s.accounts, sym email) (find_by_email-append w.accounts a.user s.fresh) in
    let compares : c.compare a.user.password_hash r.password ≡ true =
      rw s.user (bcrypt s.salt r.password s.hash s.hashed) in
    let prefix : has_prefix (lit "iaas_") a.api_key ≡ true = rw s.key (key_of-prefix s.digits) in
    let some_key : is_empty a.api_key ≡ false = rw s.key (key_of-nonempty s.digits) in
    let acts = authenticate-found c jwt g a.api_key v a.user n prefix by_key in
    (
      login-found c l r.email r.password (login_tables v) (user_of a.user) b t by_email compares,
      middleware-token c jwt g (lit "Bearer " ++ a.api_key) other a.api_key v
            (bearer-extract_token a.api_key other) some_key
          ∙ acts,
      middleware-token c jwt g [] a.api_key a.api_key v (empty-extract_token a.api_key) some_key
          ∙ acts,
      email,
      ap (λ z. z.role) s.user,
    )
