-- ===== src/Server/Audit.antt =====
-- The audit trail: `Record` of internal/audit/recorder.go, `List` of internal/audit/service.go, and the
-- table of internal/database/audit.go. The email, the kind of the resource, the metadata, the address
-- and the request of an event are left out; times are in milliseconds. What `FindMember` finds is an
-- argument, of which the role is read.
pub mod Scoped
use iaas_platform.Base.{
  ℕ, zero, suc, Bool, true, false, ◌&&◌, ◌||◌, Option, none, some, List, [], ◌∷◌, ◌++◌, keep, take,
  length, ltb, leb, ◌==◌, if◌then◌else◌,
}
use iaas_platform.Base.Text.{Text, lit, text_eq, is_empty}
use iaas_platform.Server.{Lookup, found, missing, broken}

pub record AuditEvent : Type 0 where
  pub id : ℕ
  pub organization_id : Option ℕ
  pub user_id : Option ℕ
  pub action : Text
  pub resource_id : Text
  pub created_at : ℕ

pub record AuditFilter : Type 0 where
  pub user_id : Option ℕ
  pub action : Text
  pub resource : Text
  pub since : Option ℕ
  pub limit : ℕ
  pub offset : ℕ

pub record Trail : Type 0 where
  pub events : List AuditEvent
  pub next_id : ℕ
  pub now : ℕ

-- `Record`, of an event without a time: a failing insert is ignored.
unfoldable pub record_event : Bool → Option ℕ → Option ℕ → Text → Text → Trail → Trail
record_event fails org user action resource w = if fails then w else record w {
  events =
      w.events
      ++ (record {
        id = w.next_id;
        organization_id = org;
        user_id = user;
        action = action;
        resource_id = resource;
        created_at = w.now;
      }
          ∷ []);
  next_id = suc w.next_id;
}

abbrev pub same_id : ℕ → Option ℕ → Bool
same_id n none = false
same_id n (some m) = m == n

-- A clause for a filter that is set.
abbrev pub if_set : Option ℕ → (ℕ → Bool) → Bool
if_set none p = true
if_set (some n) p = p n

abbrev pub if_given : Text → Bool → Bool
if_given [] b = true
if_given (c ∷ s) b = b

-- `buildAuditWhere`
unfoldable pub selects : ℕ → AuditFilter → AuditEvent → Bool
selects org f e =
    same_id org e.organization_id
    && (if_set f.user_id (λ n. same_id n e.user_id)
        && (if_given f.action (text_eq e.action f.action)
            && (if_given f.resource (text_eq e.resource_id f.resource)
                && if_set f.since (λ t. leb t e.created_at))))

-- `ORDER BY created_at DESC, id DESC`
abbrev pub comes_first : AuditEvent → AuditEvent → Bool
comes_first e d = ltb d.created_at e.created_at || (d.created_at == e.created_at && leb d.id e.id)

unfoldable pub insert_event : AuditEvent → List AuditEvent → List AuditEvent
insert_event e [] = e ∷ []
insert_event e (d ∷ l) =
    let rest = insert_event e l in if comes_first e d then e ∷ d ∷ l else d ∷ rest

unfoldable pub newest_first : List AuditEvent → List AuditEvent
unfolding insert_event
newest_first [] = []
newest_first (e ∷ l) = insert_event e (newest_first l)

unfoldable pub skip : ℕ → List AuditEvent → List AuditEvent
skip zero l = l
skip (suc n) [] = []
skip (suc n) (e ∷ l) = skip n l

pub data Error : Type 0 where
  not_member internal : Error

pub data Result (A : Type 0) : Type 0 where
  ok : A → Result A
  refused : Error → Result A

-- The calls that fail.
pub record Faults : Type 0 where
  pub list : Bool
  pub count : Bool

-- `store.List` and `store.Count`
unfoldable pub list_where : Faults → ℕ → AuditFilter → Trail → Result (List AuditEvent × ℕ)
unfolding selects newest_first skip
list_where f org q w =
    let matching = keep (selects org q) w.events in
    if f.list
    then refused internal
    else if f.count
    then refused internal
    else ok (take q.limit (skip q.offset (newest_first matching)), length matching)

-- `List`
unfoldable pub list :
    Faults → Lookup Text → ℕ → ℕ → AuditFilter → Trail → Result (List AuditEvent × ℕ)
unfolding list_where
list f missing org user q w = refused not_member
list f broken org user q w = refused internal
list f (found role) org user q w =
    if text_eq role (lit "admin")
    then list_where f org q w
    else list_where f org (record q { user_id = some user }) w
