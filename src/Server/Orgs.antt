-- ===== src/Server/Orgs.antt =====
-- The organizations of internal/organizations and their tables: the rows of
-- internal/database/organizations.go with the queries over them, and the users of users.go.
-- Rows stand in the order of their `id`, which nothing else reads; the name and the email that a
-- member is shown with are left out. Times are in milliseconds.
pub mod Service
pub mod System
pub mod Admins
pub mod Keeps
pub mod Reachable
pub mod Access
pub mod Pages
use iaas_platform.Base.{
  ℕ, Bool, true, false, not, ◌&&◌, Option, none, some, List, [], ◌∷◌, ◌++◌, find, any, keep, leb,
  ◌==◌, if◌then◌else◌,
}
use iaas_platform.Base.Text.{Text, text_eq, lit}

pub record Organization : Type 0 where
  pub id : ℕ
  pub name : Text
  pub slug : Text

pub record OrgMember : Type 0 where
  pub organization_id : ℕ
  pub user_id : ℕ
  pub role : Text
  pub suspended_until : Option ℕ

pub record JoinRequest : Type 0 where
  pub organization_id : ℕ
  pub user_id : ℕ

pub record User : Type 0 where
  pub id : ℕ
  pub email : Text

pub record Directory : Type 0 where
  pub organizations : List Organization
  pub members : List OrgMember
  pub requests : List JoinRequest
  pub users : List User
  pub next_id : ℕ
  pub now : ℕ

-- `organization_id = $1 AND user_id = $2`
abbrev pub is_row : ℕ → ℕ → OrgMember → Bool
is_row org user m = m.organization_id == org && m.user_id == user

abbrev pub is_request : ℕ → ℕ → JoinRequest → Bool
is_request org user r = r.organization_id == org && r.user_id == user

-- `suspended_until IS NULL OR suspended_until <= NOW()`
abbrev pub has_access : ℕ → OrgMember → Bool
has_access now m = elim m.suspended_until [ none ↦ true | some t ↦ leb t now ]

abbrev pub is_admin : OrgMember → Bool
is_admin m = text_eq m.role (lit "admin")

-- `FindMember`
unfoldable pub find_member : ℕ → ℕ → ℕ → List OrgMember → Option OrgMember
find_member org user now l = find (λ (m : OrgMember). is_row org user m && has_access now m) l

-- `FindMemberAny`
unfoldable pub find_member_any : ℕ → ℕ → List OrgMember → Option OrgMember
find_member_any org user l = find (λ (m : OrgMember). is_row org user m) l

-- `AddMember`: the insert, which the unique key on both columns refuses for a member.
unfoldable pub add_member : OrgMember → List OrgMember → Option (List OrgMember)
add_member m l =
    if any (λ (x : OrgMember). is_row m.organization_id m.user_id x) l
    then none
    else some (l ++ (m ∷ []))

-- The row is gone.
unfoldable pub delete_member : ℕ → ℕ → List OrgMember → List OrgMember
delete_member org user l = keep (λ (m : OrgMember). not (is_row org user m)) l

-- `SuspendMember` and `UnsuspendMember`
unfoldable pub set_suspended : ℕ → ℕ → Option ℕ → List OrgMember → List OrgMember
set_suspended org user t [] = []
set_suspended org user t (m ∷ l) =
    (if is_row org user m then record m { suspended_until = t } else m) ∷ set_suspended org user t l

unfoldable pub has_request : ℕ → ℕ → List JoinRequest → Bool
has_request org user l = any (λ (r : JoinRequest). is_request org user r) l

unfoldable pub delete_request : ℕ → ℕ → List JoinRequest → List JoinRequest
delete_request org user l = keep (λ (r : JoinRequest). not (is_request org user r)) l

-- `FindByEmail` and `FindBySlug`
unfoldable pub find_by_email : Text → List User → Option User
find_by_email e l = find (λ (u : User). text_eq u.email e) l

unfoldable pub has_slug : Text → List Organization → Bool
has_slug s l = any (λ (o : Organization). text_eq o.slug s) l
