-- ===== src/Server/Orgs/Admins.antt =====
-- The admins of an organization under the changes of the rows: internal/database/organizations.go.
use iaas_platform.Base.{
  ℕ, ◌+◌, ◌≡◌, refl, Bool, true, false, ◌&&◌, Option, none, some, List, [], ◌∷◌, ◌++◌, any, arith,
  ◌==◌,
}
use iaas_platform.Server.Orgs.{
  Directory, OrgMember, has_access, is_admin, find_member, add_member, delete_member, set_suspended,
}

-- An admin of the organization who is not suspended.
abbrev admin_of : ℕ → ℕ → OrgMember → Bool
admin_of org now m = m.organization_id == org && (has_access now m && is_admin m)

unfoldable pub has_admin : ℕ → ℕ → List OrgMember → Bool
has_admin org now l = any (admin_of org now) l

abbrev pub IsAdmin : ℕ → ℕ → Directory → Type 0
IsAdmin org caller w =
    (m : OrgMember) × (find_member org caller w.now w.members ≡ some m) × (is_admin m ≡ true)

has_admin-append :
    (org now : ℕ) (l k : List OrgMember)
    → has_admin org now l ≡ true
    → has_admin org now (l ++ k) ≡ true
unfolding has_admin
has_admin-append org now [] k h = ground arith
has_admin-append org now (m ∷ l) k h = ground (arith, has_admin-append org now l k)

pub has_admin-add_member :
    (org now : ℕ) (m : OrgMember) (l k : List OrgMember)
    → add_member m l ≡ some k
    → has_admin org now l ≡ true
    → has_admin org now k ≡ true
unfolding add_member
has_admin-add_member org now m l k e h = ground (arith, has_admin-append org now l (m ∷ []) h)

pub has_admin-delete_member_other :
    (o org user now : ℕ) (l : List OrgMember)
    → (o == org) ≡ false
    → has_admin o now (delete_member org user l) ≡ has_admin o now l
unfolding has_admin delete_member
has_admin-delete_member_other o org user now [] n = refl
has_admin-delete_member_other o org user now (m ∷ l) n =
    ground (arith, has_admin-delete_member_other o org user now l n)

pub has_admin-delete_member :
    (org user admin now : ℕ) (l : List OrgMember) (m : OrgMember)
    → find_member org admin now l ≡ some m
    → is_admin m ≡ true
    → (user == admin) ≡ false
    → has_admin org now (delete_member org user l) ≡ true
unfolding has_admin delete_member find_member
has_admin-delete_member org user admin now [] m e a n = ground arith
has_admin-delete_member org user admin now (x ∷ l) m e a n =
    ground (arith, has_admin-delete_member org user admin now l m)

pub has_admin-set_suspended_other :
    (o org user now : ℕ) (t : Option ℕ) (l : List OrgMember)
    → (o == org) ≡ false
    → has_admin o now (set_suspended org user t l) ≡ has_admin o now l
unfolding has_admin set_suspended
has_admin-set_suspended_other o org user now t [] n = refl
has_admin-set_suspended_other o org user now t (m ∷ l) n =
    ground (arith, has_admin-set_suspended_other o org user now t l n)

pub has_admin-set_suspended :
    (org user admin now : ℕ) (t : Option ℕ) (l : List OrgMember) (m : OrgMember)
    → find_member org admin now l ≡ some m
    → is_admin m ≡ true
    → (user == admin) ≡ false
    → has_admin org now (set_suspended org user t l) ≡ true
unfolding has_admin set_suspended find_member
has_admin-set_suspended org user admin now t [] m e a n = ground arith
has_admin-set_suspended org user admin now t (x ∷ l) m e a n =
    ground (arith, has_admin-set_suspended org user admin now t l m)

pub has_admin-restored :
    (o org user now : ℕ) (l : List OrgMember)
    → has_admin o now l ≡ true
    → has_admin o now (set_suspended org user none l) ≡ true
unfolding has_admin set_suspended
has_admin-restored o org user now [] h = ground arith
has_admin-restored o org user now (m ∷ l) h = ground (arith, has_admin-restored o org user now l)

pub has_admin-later :
    (o now ms : ℕ) (l : List OrgMember) → has_admin o now l ≡ true → has_admin o (now + ms) l ≡ true
unfolding has_admin
has_admin-later o now ms [] h = ground arith
has_admin-later o now ms (m ∷ l) h = ground (arith, has_admin-later o now ms l)
