-- ===== src/Server/Auth/Signup.antt =====
-- `Signup` and `Authenticate` of internal/auth/service.go and `extractToken` of
-- internal/auth/middleware.go, over the tables of internal/database/users.go and of the organizations
-- with their join requests. What `ValidateToken` makes of a JWT is a parameter, and so are the digits
-- of a new API key. The service has an organization store; the name and the organization of a user
-- are left out.
use iaas_platform.Base.{
  ℕ, suc, Bool, true, false, ◌&&◌, Option, none, some, List, [], ◌∷◌, ◌++◌, ◌||◌, any, find, map,
  ◌==◌, if◌then◌else◌,
}
use iaas_platform.Base.Text.{Text, lit, text_eq, is_empty}
use iaas_platform.Server.{Lookup, found, missing, broken}
use iaas_platform.Server.Auth.{Hashes, Accounts, User}
use iaas_platform.Server.Orgs.{Organization, JoinRequest, has_request}

-- A row of `users`; the column `api_key` holds a digest.
pub record Account : Type 0 where
  pub id : ℕ
  pub email : Text
  pub password_hash : Text
  pub role : Text
  pub api_key : Text

pub record Registry : Type 0 where
  pub accounts : List Account
  pub organizations : List Organization
  pub requests : List JoinRequest
  pub next_user : ℕ

-- The calls that fail.
pub record Faults : Type 0 where
  pub find_user : Bool
  pub find_org : Bool
  pub insert : Bool
  pub join : Bool
  pub token : Bool
  pub find_key : Bool

pub data Error : Type 0 where
  email_taken org_not_found internal : Error

pub record SignupRequest : Type 0 where
  pub email : Text
  pub password : Text
  pub org_slug : Text

-- The answer, without the token.
pub record AuthResponse : Type 0 where
  pub api_key : Text
  pub user : Account
  pub org_join_pending : Bool

pub data Result (A : Type 0) : Type 0 where
  ok : A → Result A
  refused : Error → Result A

-- `FindByEmail` and `FindByAPIKeyHash`
unfoldable pub find_account : Text → List Account → Option Account
find_account e l = find (λ (a : Account). text_eq a.email e) l

unfoldable pub find_by_api_key_hash : Text → List Account → Option Account
find_by_api_key_hash h l = find (λ (a : Account). text_eq a.api_key h) l

-- `FindBySlug`
unfoldable pub find_by_slug : Text → List Organization → Option Organization
find_by_slug s l = find (λ (o : Organization). text_eq o.slug s) l

-- The organization of the request, if it names one.
unfoldable pub resolve : Faults → Text → Registry → Lookup (Option Organization)
unfolding find_by_slug
resolve f slug w =
    if is_empty slug
    then found none
    else if f.find_org
    then broken
    else elim (find_by_slug slug w.organizations) [ none ↦ missing | some o ↦ found (some o) ]

-- `generateAPIKey`, of the digits that it draws.
unfoldable pub key_of : Text → Text
unfolding lit
key_of hex = lit "iaas_" ++ hex

abbrev pub new_account : Hashes → ℕ → Text → Text → Text → Account
new_account c id email hash key = record {
  id = id;
  email = email;
  password_hash = hash;
  role = lit "user";
  api_key = c.digest key;
}

-- `AddJoinRequest`, which a unique index on both columns may refuse, and the token.
unfoldable pub add_join_request :
    Faults → Option Organization → Account → Text → Registry → Registry × Result AuthResponse
unfolding has_request
add_join_request f none u key w =
    if f.token
    then (w, refused internal)
    else (w, ok (record { api_key = key; user = u; org_join_pending = false }))
add_join_request f (some o) u key w =
    if f.join || has_request o.id u.id w.requests
    then (w, refused internal)
    else let v = record w {
      requests = w.requests ++ (record { organization_id = o.id; user_id = u.id } ∷ []);
    } in
      if f.token
      then (v, refused internal)
      else (v, ok (record { api_key = key; user = u; org_join_pending = true }))

-- The insert, which the unique columns may refuse, and what follows it.
unfoldable pub create_user :
    Faults → Option Organization → Account → Text → Registry → Registry × Result AuthResponse
unfolding add_join_request
create_user f o u key w =
    if f.insert
      || any (λ (a : Account). text_eq a.email u.email || text_eq a.api_key u.api_key) w.accounts
    then (w, refused internal)
    else add_join_request f o u key
        (record w { accounts = w.accounts ++ (u ∷ []); next_user = suc w.next_user })

-- `Signup`, with the salt of the hash and the digits of the key, if they could be drawn.
unfoldable pub signup :
    Hashes → Faults → ℕ → Option Text → SignupRequest → Registry → Registry × Result AuthResponse
unfolding find_account resolve key_of create_user
signup c f salt hex r w =
    if f.find_user then (w, refused internal) else elim (find_account r.email w.accounts) [
      | some a ↦ (w, refused email_taken)
      | none ↦ elim (resolve f r.org_slug w) [
        | missing ↦ (w, refused org_not_found)
        | broken ↦ (w, refused internal)
        | found o ↦ elim (c.generate salt r.password) [
          | none ↦ (w, refused internal)
          | some h ↦ elim hex [
            | none ↦ (w, refused internal)
            | some k ↦ create_user f o (new_account c w.next_user r.email h (key_of k)) (key_of k) w
          ]
        ]
      ]
    ]

-- What an authenticated request is known by.
pub record Claims : Type 0 where
  pub user_id : ℕ
  pub email : Text
  pub role : Text

-- `strings.HasPrefix`
unfoldable pub has_prefix : Text → Text → Bool
has_prefix [] s = true
has_prefix (c ∷ p) [] = false
has_prefix (c ∷ p) (d ∷ s) = (c == d) && has_prefix p s

-- `Authenticate`; an unknown key is `ErrInvalidCreds`, as `missing`.
unfoldable pub authenticate :
    Hashes → (Text → Lookup Claims) → Faults → Text → Registry → Lookup Claims
unfolding has_prefix find_by_api_key_hash lit
authenticate c jwt f token w =
    if has_prefix (lit "iaas_") token
    then if f.find_key then broken else elim (find_by_api_key_hash (c.digest token) w.accounts) [
      | none ↦ missing
      | some a ↦ found (record { user_id = a.id; email = a.email; role = a.role })
    ]
    else jwt token

-- `strings.TrimPrefix`, of a text with the prefix.
unfoldable pub trim_prefix : Text → Text → Text
trim_prefix [] s = s
trim_prefix (c ∷ p) [] = []
trim_prefix (c ∷ p) (d ∷ s) = trim_prefix p s

-- `extractToken`, of the headers Authorization and X-API-Key.
unfoldable pub extract_token : Text → Text → Text
unfolding has_prefix trim_prefix lit
extract_token header key =
    if has_prefix (lit "Bearer ") header then trim_prefix (lit "Bearer ") header else key

-- A request with a token, or with the empty text for none.
unfoldable pub for_token :
    Hashes → (Text → Lookup Claims) → Faults → Registry → Text → Lookup Claims
unfolding authenticate
for_token c jwt f w token = if is_empty token then missing else authenticate c jwt f token w

-- Whom `Middleware` lets a request act for.
unfoldable pub middleware :
    Hashes → (Text → Lookup Claims) → Faults → Text → Text → Registry → Lookup Claims
unfolding extract_token for_token
middleware c jwt f header key w = for_token c jwt f w (extract_token header key)

-- The tables that `Login` reads.
abbrev pub user_of : Account → User
user_of a = record { id = a.id; email = a.email; password_hash = a.password_hash }

abbrev pub login_tables : Registry → Accounts
login_tables w = record { users = map user_of w.accounts; resets = []; next_id = 0; now = 0 }
