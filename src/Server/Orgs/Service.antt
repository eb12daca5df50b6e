-- ===== src/Server/Orgs/Service.antt =====
-- The operations of internal/organizations/service.go. Whether a call of the database fails is given
-- by `Faults`; an operation that fails on the way keeps what it did before.
use iaas_platform.Base.{
  ℕ, zero, suc, ◌+◌, ◌*◌, Bool, not, ◌||◌, Option, none, some, List, [], ◌∷◌, ◌++◌, map, take, keep,
  length, ltb, ◌==◌, if◌then◌else◌,
}
use iaas_platform.Base.Text.{Text, lit, or_text}
use iaas_platform.Server.Orgs.{
  Directory, OrgMember, is_admin, find_member, find_member_any, add_member, delete_member,
  set_suspended, has_request, delete_request, find_by_email, has_slug,
}

-- The calls that fail.
pub record Faults : Type 0 where
  pub find_member : Bool
  pub find_any : Bool
  pub find_user : Bool
  pub find_request : Bool
  pub delete_request : Bool
  pub add : Bool
  pub change : Bool
  pub slug : Bool
  pub create : Bool
  pub find_all : Bool
  pub count : Bool

pub data Error : Type 0 where
  not_member only_admins_invite user_not_found already_member request_not_found : Error
  not_admin self_action slug_taken internal : Error

pub data Outcome : Type 0 where
  done : Outcome
  refused : Error → Outcome

abbrev pub day : ℕ
day = 86400000

-- The rest of an operation, for an admin of the organization: `requireAdmin`, and in
-- `InviteMember` the same check with another error.
unfoldable pub for_admin :
    Error → Faults → ℕ → ℕ → Directory → Directory × Outcome → Directory × Outcome
unfolding find_member
for_admin e f org caller w k =
    if f.find_member then (w, refused internal) else elim (find_member org caller w.now w.members) [
      | none ↦ (w, refused e)
      | some m ↦ if is_admin m then k else (w, refused e)
    ]

-- `AddMember`, and what follows it.
unfoldable pub adding :
    Faults → OrgMember → Directory → (Directory → Directory × Outcome) → Directory × Outcome
unfolding add_member
adding f m w k = if f.add then (w, refused internal) else elim (add_member m w.members) [
  | none ↦ (w, refused internal)
  | some l ↦ k (record w { members = l })
]

-- `DeleteJoinRequest`, where a missing request is no error.
unfoldable pub dropping :
    Faults → ℕ → ℕ → Directory → (Directory → Directory × Outcome) → Directory × Outcome
unfolding delete_request
dropping f org user w k =
    if f.delete_request
    then (w, refused internal)
    else k (record w { requests = delete_request org user w.requests })

-- `strings.ReplaceAll(s, " ", "-")`
abbrev hyphens : Text → Text
hyphens s = map (λ c. if c == b' ' then b'-' else c) s

-- The slug of a new organization; `lower` is `strings.ToLower`.
unfoldable pub slug_for : (Text → Text) → Text → Text → Text
slug_for lower name slug = or_text (lower (hyphens slug)) (lower (hyphens name))

-- `Create`: an organization whose first member cannot be added stays without one.
unfoldable pub create : Faults → (Text → Text) → ℕ → Text → Text → Directory → Directory × Outcome
unfolding slug_for has_slug adding
create f lower user name slug w =
    let s = slug_for lower name slug in
    if f.slug
    then (w, refused internal)
    else if has_slug s w.organizations
    then (w, refused slug_taken)
    else if f.create
    then (w, refused internal)
    else let org = w.next_id in
      let v = record w {
        organizations = w.organizations ++ (record { id = org; name = name; slug = s } ∷ []);
        next_id = suc org;
      } in
      adding f
        (record {
          organization_id = org;
          user_id = user;
          role = lit "admin";
          suspended_until = none;
        })
        v (λ x. (x, done))

-- `InviteMember`
unfoldable pub invite_member : Faults → ℕ → ℕ → Text → Text → Directory → Directory × Outcome
unfolding for_admin find_by_email find_member_any adding
invite_member f org caller email role w = for_admin only_admins_invite f org caller w (
    if f.find_user then (w, refused internal) else elim (find_by_email email w.users) [
      | none ↦ (w, refused user_not_found)
      | some u ↦
          if f.find_any then (w, refused internal) else elim (find_member_any org u.id w.members) [
            | some m ↦ (w, refused already_member)
            | none ↦
                adding f
                  (record {
                    organization_id = org;
                    user_id = u.id;
                    role = or_text role (lit "member");
                    suspended_until = none;
                  })
                  w (λ x. (x, done))
          ]
    ])

-- `AcceptJoinRequest`: a request of someone who is a member by now is dropped.
unfoldable pub accept_join_request : Faults → ℕ → ℕ → ℕ → Directory → Directory × Outcome
unfolding for_admin has_request find_member_any dropping adding
accept_join_request f org user admin w = for_admin not_admin f org admin w (
    if f.find_request
    then (w, refused internal)
    else if not (has_request org user w.requests)
    then (w, refused request_not_found)
    else if f.find_any
    then (w, refused internal)
    else elim (find_member_any org user w.members) [
      | some m ↦ dropping f org user w (λ v. (v, refused already_member))
      | none ↦
          adding f
            (record {
              organization_id = org;
              user_id = user;
              role = lit "member";
              suspended_until = none;
            })
            w (λ v. dropping f org user v (λ x. (x, done)))
    ])

-- `RevokeJoinRequest`
unfoldable pub revoke_join_request : Faults → ℕ → ℕ → ℕ → Directory → Directory × Outcome
unfolding for_admin has_request delete_request
revoke_join_request f org user admin w = for_admin not_admin f org admin w (
    if f.delete_request
    then (w, refused internal)
    else if has_request org user w.requests
    then (record w { requests = delete_request org user w.requests }, done)
    else (w, refused request_not_found))

-- The update or the deletion of a membership: `ErrNotMember` where no row is affected.
unfoldable pub changing : Faults → ℕ → ℕ → Directory → List OrgMember → Directory × Outcome
unfolding find_member_any
changing f org user w l =
    if f.change then (w, refused internal) else elim (find_member_any org user w.members) [
      | none ↦ (w, refused not_member)
      | some m ↦ (record w { members = l }, done)
    ]

-- `RemoveMember`
unfoldable pub remove_member : Faults → ℕ → ℕ → ℕ → Directory → Directory × Outcome
unfolding for_admin dropping delete_member changing
remove_member f org user admin w = for_admin not_admin f org admin w (
    if user == admin
    then (w, refused self_action)
    else dropping f org user w (λ v. changing f org user v (delete_member org user v.members)))

-- The member that `SuspendMember` and `UnsuspendMember` read back.
abbrev pub reading : Faults → Directory × Outcome → Directory × Outcome
reading f (v, refused e) = (v, refused e)
reading f (v, done) = if f.find_any then (v, refused internal) else (v, done)

-- `SuspendMember`, for a number of days that is not negative.
unfoldable pub suspend_member : Faults → ℕ → ℕ → ℕ → ℕ → Directory → Directory × Outcome
unfolding for_admin set_suspended changing
suspend_member f org user days admin w = for_admin not_admin f org admin w (
    if user == admin
    then (w, refused self_action)
    else reading f
        (changing f org user w (set_suspended org user (some (w.now + days * day)) w.members)))

-- `UnsuspendMember`
unfoldable pub unsuspend_member : Faults → ℕ → ℕ → ℕ → Directory → Directory × Outcome
unfolding for_admin set_suspended changing
unsuspend_member f org user admin w =
    for_admin not_admin f org admin w
      (reading f (changing f org user w (set_suspended org user none w.members)))

unfoldable pub drop : ℕ → List OrgMember → List OrgMember
drop zero l = l
drop (suc n) [] = []
drop (suc n) (m ∷ l) = drop n l

-- `FindMembers` and `CountMembers`
unfoldable pub members_of : ℕ → List OrgMember → List OrgMember
members_of org l = keep (λ (m : OrgMember). m.organization_id == org) l

-- `ListMembers`: the page and the total, or an error. An admin sees every member, another member
-- the own row on the first page.
unfoldable pub list_members : Faults → ℕ → ℕ → ℕ → ℕ → Directory → Option (List OrgMember × ℕ)
unfolding find_member members_of drop
list_members f org caller limit offset w =
    if f.find_member then none else elim (find_member org caller w.now w.members) [
      | none ↦ none
      | some m ↦
          if is_admin m
          then (if f.find_all || f.count
              then none
              else some (
                take limit (drop offset (members_of org w.members)),
                length (members_of org w.members),
              ))
          else if ltb 0 offset
          then some ([], 1)
          else some (m ∷ [], 1)
    ]
