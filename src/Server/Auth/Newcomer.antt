-- ===== src/Server/Auth/Newcomer.antt =====
-- From a signup to the membership: internal/auth/service.go and internal/organizations/service.go.
use iaas_platform.Base.{
  ℕ, suc, ◌+◌, ◌≡◌, refl, ap, ◌∙◌, true, false, none, some, List, [], ◌∷◌, ◌++◌, ◌||◌, any, map,
  arith,
}
use iaas_platform.Base.Text.{Text, lit, text_eq}
use iaas_platform.Server.{found}
use iaas_platform.Server.Auth.{Hashes}
use iaas_platform.Server.Auth.Signup.{
  Account, Registry, Faults, SignupRequest, find_account, resolve, key_of, new_account,
  add_join_request, create_user, signup,
}
use iaas_platform.Server.Orgs.{
  Directory, Organization, OrgMember, JoinRequest, is_row, is_admin, find_member, find_member_any,
  add_member, has_request, delete_request,
}
use iaas_platform.Server.Orgs.Service.{
  done, not_admin, for_admin, adding, dropping, accept_join_request,
}
use iaas_platform.Server.Orgs.Service

-- No call fails.
abbrev pub all_calls : Faults
all_calls = record {
  find_user = false;
  find_org = false;
  insert = false;
  join = false;
  token = false;
  find_key = false;
}

abbrev pub all_org_calls : Service.Faults
all_org_calls = record {
  find_member = false;
  find_any = false;
  find_user = false;
  find_request = false;
  delete_request = false;
  add = false;
  change = false;
  slug = false;
  create = false;
  find_all = false;
  count = false;
}

-- The tables of the organizations beside those of a registry.
abbrev pub directory : List OrgMember → ℕ → ℕ → Registry → Directory
directory members next now w = record {
  organizations = w.organizations;
  members = members;
  requests = w.requests;
  users = map (λ (a : Account). record { id = a.id; email = a.email }) w.accounts;
  next_id = next;
  now = now;
}

abbrev pub new_member : ℕ → ℕ → OrgMember
new_member org user = record {
  organization_id = org;
  user_id = user;
  role = lit "member";
  suspended_until = none;
}

has_request-append :
    (org user : ℕ) (l : List JoinRequest)
    → has_request org user (l ++ (record { organization_id = org; user_id = user } ∷ [])) ≡ true
unfolding has_request
has_request-append org user [] = ground arith
has_request-append org user (r ∷ l) = ground (arith, has_request-append org user l)

find_member_any-none :
    (org user : ℕ) (l : List OrgMember)
    → find_member_any org user l ≡ none
    → any (λ (x : OrgMember). is_row org user x) l ≡ false
unfolding find_member_any
find_member_any-none org user [] h = refl
find_member_any-none org user (m ∷ l) h = ground (arith, h, find_member_any-none org user l)

find_member-append :
    (org user now : ℕ) (l : List OrgMember)
    → any (λ (x : OrgMember). is_row org user x) l ≡ false
    → find_member org user now (l ++ (new_member org user ∷ [])) ≡ some (new_member org user)
unfolding find_member
find_member-append org user now [] h = ground arith
find_member-append org user now (m ∷ l) h = ground (arith, h, find_member-append org user now l)

-- The tables after the signup.
abbrev signed_up : Hashes → Text → Text → SignupRequest → Organization → Registry → Registry
signed_up c k h r o w = record {
  accounts = w.accounts ++ (new_account c w.next_user r.email h (key_of k) ∷ []);
  organizations = w.organizations;
  requests = w.requests ++ (record { organization_id = o.id; user_id = w.next_user } ∷ []);
  next_user = suc w.next_user;
}

signup-signed_up :
    (c : Hashes) (salt : ℕ) (k h : Text) (r : SignupRequest) (w : Registry) (o : Organization)
    → find_account r.email w.accounts ≡ none
    → resolve all_calls r.org_slug w ≡ found (some o)
    → c.generate salt r.password ≡ some h
    → any
        (λ (x : Account). text_eq x.email r.email || text_eq x.api_key (c.digest (key_of k)))
        w.accounts
      ≡ false
    → has_request o.id w.next_user w.requests ≡ false
    → (signup c all_calls salt (some k) r w).0 ≡ signed_up c k h r o w
unfolding signup create_user add_join_request
signup-signed_up c salt k h r w o b d e n q =
    simp (b, d, e, n, q, signup, create_user, add_join_request) refl

accepted :
    (org user admin : ℕ) (m : OrgMember) (w : Directory)
    → find_member org admin w.now w.members ≡ some m
    → is_admin m ≡ true
    → has_request org user w.requests ≡ true
    → find_member_any org user w.members ≡ none
    → ((accept_join_request all_org_calls org user admin w).1 ≡ done)
      × ((accept_join_request all_org_calls org user admin w).0.members
          ≡ w.members ++ (new_member org user ∷ []))
      × ((accept_join_request all_org_calls org user admin w).0.requests
          ≡ delete_request org user w.requests)
unfolding accept_join_request for_admin adding dropping add_member
accepted org user admin m w f a q n =
    let free = find_member_any-none org user w.members n in
    (
      simp (f, a, q, n, free, accept_join_request, for_admin, adding, dropping, add_member) refl,
      simp (f, a, q, n, free, accept_join_request, for_admin, adding, dropping, add_member) refl,
      simp (f, a, q, n, free, accept_join_request, for_admin, adding, dropping, add_member) refl,
    )

delete_request-gone :
    (org user : ℕ) (l : List JoinRequest) → has_request org user (delete_request org user l) ≡ false
unfolding has_request delete_request
delete_request-gone org user [] = refl
delete_request-gone org user (r ∷ l) = ground (arith, delete_request-gone org user l)

-- Where no call fails, the join request that a signup stores is one that an admin of the organization
-- can accept: the new user, who is in no row of the organization yet, is then found with the role
-- member, at that time and at any later one while the rows stay as they are, and the request is gone.
pub newcomer_joins :
    (c : Hashes) (salt : ℕ) (k h : Text) (r : SignupRequest) (w : Registry) (o : Organization)
    (members : List OrgMember) (next now ms admin : ℕ) (m : OrgMember)
    → find_account r.email w.accounts ≡ none
    → resolve all_calls r.org_slug w ≡ found (some o)
    → c.generate salt r.password ≡ some h
    → any
        (λ (x : Account). text_eq x.email r.email || text_eq x.api_key (c.digest (key_of k)))
        w.accounts
      ≡ false
    → has_request o.id w.next_user w.requests ≡ false
    → find_member_any o.id w.next_user members ≡ none
    → find_member o.id admin now members ≡ some m
    → is_admin m ≡ true
    → let v = (signup c all_calls salt (some k) r w).0 in
      let d =
        accept_join_request all_org_calls o.id w.next_user admin (directory members next now v) in
      (d.1 ≡ done)
      × (find_member o.id w.next_user (now + ms) d.0.members ≡ some (new_member o.id w.next_user))
      × (has_request o.id w.next_user d.0.requests ≡ false)
newcomer_joins c salt k h r w o members next now ms admin m b d e n q free f a =
    let v = signup-signed_up c salt k h r w o b d e n q in
    let none_before = find_member_any-none o.id w.next_user members free in
    let accept = λ (x : Registry).
      accept_join_request all_org_calls o.id w.next_user admin (directory members next now x) in
    let u = signed_up c k h r o w in
    let (ok, rows, rest) =
      accepted o.id w.next_user admin m (directory members next now u) f a
        (has_request-append o.id w.next_user w.requests) free in
    (
      ap (λ x. (accept x).1) v ∙ ok,
      ap (λ x. find_member o.id w.next_user (now + ms) (accept x).0.members) v
          ∙ ap (λ l. find_member o.id w.next_user (now + ms) l) rows
          ∙ find_member-append o.id w.next_user (now + ms) members none_before,
      ap (λ x. has_request o.id w.next_user (accept x).0.requests) v
          ∙ ap (λ l. has_request o.id w.next_user l) rest
          ∙ delete_request-gone o.id w.next_user u.requests,
    )
