-- ===== src/Tests/Members.antt =====
-- The organizations of the server on concrete tables.
use iaas_platform.Base.{◌+◌, ◌≤◌, ◌≡◌, refl, true, false, none, some, [], ◌∷◌, length, arith}
use iaas_platform.Base.Text.{lit, text_eq}
use iaas_platform.Server.Orgs.{Directory, OrgMember, find_member, find_member_any}
use iaas_platform.Server.Orgs.Service.{Faults, suspend_member, list_members, members_of}
use iaas_platform.Server.Orgs.System.{removes, suspends, serve, Reach, here, asks}
use iaas_platform.Server.Orgs.Admins.{has_admin}
use iaas_platform.Server.Orgs.Reachable.{always_an_admin}
use iaas_platform.Server.Paging.{page_params}
use iaas_platform.Server.Orgs.Pages.{pages, pages_cover}
use iaas_platform.Server.Orgs.Access.{acts_as_admin, outsiders_change_nothing, suspension_elapses}

abbrev ann : OrgMember
ann = record { organization_id = 1; user_id = 1; role = lit "admin"; suspended_until = none }

abbrev bob : OrgMember
bob = record { organization_id = 1; user_id = 2; role = lit "admin"; suspended_until = none }

abbrev cleo : OrgMember
cleo = record { organization_id = 1; user_id = 3; role = lit "member"; suspended_until = none }

abbrev directory : Directory
directory = record {
  organizations = record { id = 1; name = lit "Acme"; slug = lit "acme" } ∷ [];
  members = ann ∷ bob ∷ cleo ∷ [];
  requests = [];
  users = record { id = 1; email = lit "ann@acme.test" } ∷ [];
  next_id = 2;
  now = 1000;
}

abbrev no_faults : Faults
no_faults = record {
  find_member = false;
  find_any = false;
  find_user = false;
  find_request = false;
  delete_request = false;
  add = false;
  change = false;
  slug = false;
  create = false;
  find_all = false;
  count = false;
}

-- One admin removes the other, who can do nothing about it a moment later.
abbrev later : Directory
later = serve no_faults 2 (removes 1 1) (serve no_faults 1 (removes 1 2) directory)

later-Reach : Reach directory later
later-Reach = asks (asks here no_faults 1 (removes 1 2)) no_faults 2 (removes 1 1)

directory-has_admin : has_admin 1 directory.now directory.members ≡ true
unfolding has_admin text_eq lit
directory-has_admin = refl

always_an_admin_example : has_admin 1 later.now later.members ≡ true
always_an_admin_example = always_an_admin 1 directory-has_admin later-Reach

cleo-acts_as_admin : acts_as_admin 1 3 directory ≡ false
unfolding acts_as_admin text_eq lit
cleo-acts_as_admin = refl

outsiders_change_nothing_example : serve no_faults 3 (suspends 1 1 30) directory ≡ directory
outsiders_change_nothing_example =
    outsiders_change_nothing no_faults 3 1 (suspends 1 1 30) directory refl cleo-acts_as_admin

ann-found : find_member 1 1 directory.now directory.members ≡ some ann
unfolding find_member
ann-found = refl

cleo-found : find_member_any 1 3 directory.members ≡ some cleo
unfolding find_member_any
cleo-found = refl

ann-is_admin : text_eq (lit "admin") (lit "admin") ≡ true
unfolding text_eq lit
ann-is_admin = refl

suspension_elapses_example :
    find_member 1 3 (1000 + 86400000) (suspend_member no_faults 1 3 2 1 directory).0.members ≡ none
suspension_elapses_example =
    suspension_elapses no_faults 1 3 2 1 86400000 directory ann cleo refl refl ann-found
      ann-is_admin refl cleo-found

cleo-lists : list_members no_faults 1 3 10 0 directory ≡ some (cleo ∷ [], 1)
unfolding list_members find_member text_eq lit
cleo-lists = refl

three : length (members_of 1 directory.members) ≤ 3
unfolding members_of
three = omega arith

-- Ann asks for pages of two.
pages_cover_example :
    pages no_faults 1 1 (page_params (lit "2") []).0 directory 3 0 ≡ members_of 1 directory.members
pages_cover_example =
    pages_cover no_faults 1 1 3 (lit "2") [] directory ann refl refl refl ann-found ann-is_admin
      three
