-- ===== src/Api.antt =====
-- What the server sends and what `api` makes of it: `api` and `asArray` of
-- internal/dashboard/static/app.js, with the JSON objects that the dashboard reads.
-- An object is a record of the fields that are read. A date is its `getTime()`, in milliseconds.
-- Usage figures are in thousandths of an hour.
pub mod Laws
use iaas_platform.Base.{ℕ, Bool, true, false, ◌&&◌, Option, none, some, List, [], ◌∷◌}
use iaas_platform.Base.{leb, ltb, if◌then◌else◌}
use iaas_platform.Base.Text.{Text, lit, ℤ}

pub record User : Type 0 where
  pub id : ℕ
  pub email : Text

pub record Org : Type 0 where
  pub id : ℕ
  pub name : Text
  pub slug : Text
  pub created_at : ℕ

-- The statuses of the lifecycle, and any other text.
pub data Status : Type 0 where
  pending running stopping stopped terminating terminated failed : Status
  unknown : Text → Status

pub record Instance : Type 0 where
  pub id : ℕ
  pub name : Text
  pub instance_type : Text
  pub status : Status
  pub region : Text
  pub provider_id : Text
  pub image : Text
  pub cpu_cores : ℕ
  pub memory_mb : ℕ
  pub disk_gb : ℕ
  pub ip_address : Text
  pub created_at : ℕ

pub record Member : Type 0 where
  pub user_id : ℕ
  pub name : Text
  pub email : Text
  pub role : Text
  pub suspended_until : Option ℕ
  pub created_at : ℕ

pub record JoinRequest : Type 0 where
  pub user_id : ℕ
  pub name : Text
  pub email : Text
  pub created_at : ℕ

pub record Usage : Type 0 where
  pub cpu_hours : ℕ
  pub memory_gb_hours : ℕ
  pub disk_gb_hours : ℕ

pub record Invoice : Type 0 where
  pub id : ℕ
  pub amount_cents : ℕ
  pub status : Text
  pub period_start : ℕ
  pub period_end : ℕ
  pub created_at : ℕ

pub record Webhook : Type 0 where
  pub id : ℕ
  pub url : Text
  pub events : Option (List Text)
  pub active : Bool
  pub created_at : ℕ

-- No field of an audit event is read: the function that would, `auditRow`, is not defined.
pub record AuditEvent : Type 0 where
  pub id : ℕ

-- The answer to a login or a signup; `none` where the field is missing.
pub record AuthBody : Type 0 where
  pub token : Option Text
  pub user : Option User
  pub org_join_pending : Bool

-- The JSON value of a list endpoint, by what `asArray` looks at.
pub data Shape (A : Type 0) : Type 0 where
  array : List A → Shape A
  object : Option (List A) → Option (List A) → Shape A
  other : Shape A

-- An object's first argument is its array under `orgs`, the second its array under `data`.
unfoldable pub as_array : {A : Type 0} → Shape A → List A
as_array (array l) = l
as_array (object (some l) d) = l
as_array (object none (some l)) = l
as_array (object none none) = []
as_array other = []

-- A parsed body: its `error` text, empty where there is none, and what it decodes to.
pub record Body (A : Type 0) : Type 0 where
  pub error : Text
  pub value : A

-- What `fetch` and `r.json()` come to. `none`: the body is empty or is no JSON.
pub data Fetched (A : Type 0) : Type 0 where
  rejected : Fetched A
  replied : ℕ → Option (Body A) → Fetched A

-- What `api` resolves to, by its `ok`; a failure has no status after a network error.
pub data Response (A : Type 0) : Type 0 where
  success : ℕ → A → Response A
  failure : Option ℕ → Text → Response A

-- `r.ok`
abbrev pub is_ok : ℕ → Bool
is_ok status = leb 200 status && ltb status 300

abbrev pub network_error : {A : Type 0} → Response A
network_error = failure none (lit "Network error")

-- The two `then`s and the `catch` of `api`.
unfoldable pub settle : {A : Type 0} → Fetched A → Response A
settle rejected = network_error
settle (replied status none) = network_error
settle (replied status (some b)) =
    if is_ok status then success status b.value else failure (some status) b.error

-- `Authorization` is sent when the token is not empty.
unfoldable pub bearer : Option Text → Option Text
bearer none = none
bearer (some []) = none
bearer (some (c ∷ t)) = some (c ∷ t)

-- What `createInstance` sends.
pub record NewInstance : Type 0 where
  pub name : Text
  pub instance_type : Text
  pub region : Text
  pub image : Text
  pub port : ℤ
  pub cpu_cores : ℤ
  pub memory_mb : ℤ
  pub disk_gb : ℤ

pub data Action : Type 0 where
  start stop terminate : Action

-- The requests that the dashboard makes, with what they carry. An `Option ℕ` in front is the
-- organization in the path, `state.currentOrg` or an organization's `id`; `none` is sent as `null`.
pub data Endpoint : Type 0 where
  forgot_password : Text → Endpoint
  reset_password : Option Text → Text → Endpoint
  log_in : Text → Text → Endpoint
  sign_up : Text → Text → Text → Option Text → Endpoint
  me list_orgs : Endpoint
  create_org : Text → Text → Endpoint
  list_instances list_members list_requests usage invoices list_webhooks : Option ℕ → Endpoint
  create_instance : Option ℕ → NewInstance → Endpoint
  instance_action : Option ℕ → ℕ → Action → Endpoint
  invite_member : Option ℕ → Text → Text → Endpoint
  remove_member unsuspend_member accept_request revoke_request : Option ℕ → ℕ → Endpoint
  suspend_member : Option ℕ → ℕ → ℕ → Endpoint
  create_webhook : Option ℕ → Text → List Text → Option Text → Endpoint
  ping_webhook delete_webhook : Option ℕ → ℕ → Endpoint
  update_webhook : Option ℕ → ℕ → Bool → Endpoint
  audit : Option ℕ → Option Text → Endpoint
