-- ===== src/Server/Orgs/Access.antt =====
-- Who may do what in an organization, and until when: internal/organizations/service.go.
use iaas_platform.Base.{
  ℕ, ◌+◌, ◌*◌, ◌≡◌, refl, ap, sym, ◌∙◌, ◌⊎◌, inl, inr, Bool, true, false, ◌&&◌, Option, none, some,
  List, [], ◌∷◌, any, arith, ◌==◌, ltb, All, if◌then◌else◌, Option-cases, Bool-cases,
}
use mathlib.Core.Path.{subst}
use mathlib.Core.Option.{some-injective}
use iaas_platform.Server.Orgs.{
  Directory, OrgMember, is_row, has_access, is_admin, find_member, find_member_any, set_suspended,
}
use iaas_platform.Server.Orgs.Service.{
  Faults, Error, Outcome, refused, done, for_admin, invite_member, accept_join_request,
  revoke_join_request, remove_member, suspend_member, unsuspend_member, changing, reading,
  list_members, only_admins_invite, not_admin, day,
}
use iaas_platform.Server.Orgs.System.{
  Op, creates, invites, accepts, revokes, removes, suspends, unsuspends, serve,
}

-- The organization whose members an operation manages.
abbrev pub org_of : Op → Option ℕ
org_of (creates lower name slug) = none
org_of (invites org email role) = some org
org_of (accepts org user) = some org
org_of (revokes org user) = some org
org_of (removes org user) = some org
org_of (suspends org user days) = some org
org_of (unsuspends org user) = some org

-- Some row makes the user an admin now.
unfoldable pub acts_as_admin : ℕ → ℕ → Directory → Bool
acts_as_admin org caller w =
    any (λ (m : OrgMember). is_row org caller m && (has_access w.now m && is_admin m)) w.members

find_member-outsider :
    (org caller now : ℕ) (l : List OrgMember) (m : OrgMember)
    → any (λ (x : OrgMember). is_row org caller x && (has_access now x && is_admin x)) l ≡ false
    → find_member org caller now l ≡ some m
    → is_admin m ≡ false
unfolding find_member
find_member-outsider org caller now [] m h e = ground arith
find_member-outsider org caller now (x ∷ l) m h e =
    ground (arith, find_member-outsider org caller now l m)

for_admin-outsider :
    (e : Error) (f : Faults) (org caller : ℕ) (w : Directory) (k : Directory × Outcome)
    → acts_as_admin org caller w ≡ false
    → (for_admin e f org caller w k).0 ≡ w
unfolding for_admin acts_as_admin
for_admin-outsider e f org caller w k h = elim (Bool-cases f.find_member) [
  | inl b ↦ rw (b, for_admin) refl
  | inr b ↦ elim (Option-cases (find_member org caller w.now w.members)) [
    | inl n ↦ rw (b, n, for_admin) refl
    | inr (m, n) ↦ rw (b, n, find_member-outsider org caller w.now w.members m h n, for_admin) refl
  ]
]

-- The same for the organization that the operation names.
managed-outsider :
    (f : Faults) (caller : ℕ) (op : Op) (w : Directory)
    → ((org : ℕ) → org_of op ≡ some org → acts_as_admin org caller w ≡ false)
    → (serve f caller op w ≡ w) ⊎ (org_of op ≡ none)
unfolding serve invite_member accept_join_request revoke_join_request remove_member suspend_member
    unsuspend_member
managed-outsider f caller (creates lower name slug) w h = inr refl
managed-outsider f caller (invites o email role) w h =
    inl (for_admin-outsider only_admins_invite f o caller w _ (h o refl))
managed-outsider f caller (accepts o user) w h =
    inl (for_admin-outsider not_admin f o caller w _ (h o refl))
managed-outsider f caller (revokes o user) w h =
    inl (for_admin-outsider not_admin f o caller w _ (h o refl))
managed-outsider f caller (removes o user) w h =
    inl (for_admin-outsider not_admin f o caller w _ (h o refl))
managed-outsider f caller (suspends o user days) w h =
    inl (for_admin-outsider not_admin f o caller w _ (h o refl))
managed-outsider f caller (unsuspends o user) w h =
    inl (for_admin-outsider not_admin f o caller w _ (h o refl))

-- Someone who is no admin of an organization now, and an admin who is suspended, change nothing by
-- any operation that manages its members.
pub outsiders_change_nothing :
    (f : Faults) (caller org : ℕ) (op : Op) (w : Directory)
    → org_of op ≡ some org
    → acts_as_admin org caller w ≡ false
    → serve f caller op w ≡ w
outsiders_change_nothing f caller org op w e h =
    elim (managed-outsider f caller op w (λ o q. rw (some-injective o org (sym q ∙ e)) h)) [
      | inl same ↦ same
      | inr n ↦ let c = sym n ∙ e in ground (arith, c)
    ]

find_member-suspended :
    (org user now t : ℕ) (l : List OrgMember)
    → ltb now t ≡ true
    → find_member org user now (set_suspended org user (some t) l) ≡ none
unfolding find_member set_suspended
find_member-suspended org user now t [] b = refl
find_member-suspended org user now t (x ∷ l) b =
    ground (arith, find_member-suspended org user now t l b)

find_member-elapsed :
    (org user now t : ℕ) (l : List OrgMember) (m : OrgMember)
    → ltb now t ≡ false
    → find_member_any org user l ≡ some m
    → find_member org user now (set_suspended org user (some t) l)
      ≡ some (record m { suspended_until = some t })
unfolding find_member find_member_any set_suspended
find_member-elapsed org user now t [] m b e = ground arith
find_member-elapsed org user now t (x ∷ l) m b e =
    ground (arith, find_member-elapsed org user now t l m b)

changing-some :
    (f : Faults) (org user : ℕ) (w : Directory) (l : List OrgMember) (m : OrgMember)
    → f.change ≡ false
    → find_member_any org user w.members ≡ some m
    → (changing f org user w l).0 ≡ record w { members = l }
unfolding changing
changing-some f org user w l m c e = rw (c, e, changing) refl

reading-0 : (f : Faults) (v : Directory × Outcome) → (reading f v).0 ≡ v.0
reading-0 f (v, refused e) = refl
reading-0 f (v, done) = elim (Bool-cases f.find_any) [ inl b ↦ rw b refl | inr b ↦ rw b refl ]

suspend_member-members :
    (f : Faults) (org user days admin : ℕ) (w : Directory) (a m : OrgMember)
    → f.find_member ≡ false
    → f.change ≡ false
    → find_member org admin w.now w.members ≡ some a
    → is_admin a ≡ true
    → (user == admin) ≡ false
    → find_member_any org user w.members ≡ some m
    → (suspend_member f org user days admin w).0.members
      ≡ set_suspended org user (some (w.now + days * day)) w.members
unfolding suspend_member for_admin
suspend_member-members f org user days admin w a m b c e s n i =
    simp (b, e, s, n)
      (ap (λ (v : Directory). v.members) (reading-0 f _ ∙ changing-some f org user w _ m c i))

-- A member whom an admin suspends for a number of days is no member to `FindMember`, the check of
-- every access, before they have passed; from then on the row is found again, with the role it had.
-- The admin's row and the update do not fail, reading the row back may.
pub suspension_elapses :
    (f : Faults) (org user days admin ms : ℕ) (w : Directory) (a m : OrgMember)
    → f.find_member ≡ false
    → f.change ≡ false
    → find_member org admin w.now w.members ≡ some a
    → is_admin a ≡ true
    → (user == admin) ≡ false
    → find_member_any org user w.members ≡ some m
    → find_member org user (w.now + ms) (suspend_member f org user days admin w).0.members ≡ (
        if ltb ms (days * 86400000)
        then none
        else some (record m { suspended_until = some (w.now + days * 86400000) }))
suspension_elapses f org user days admin ms w a m b c e s n i =
    rw (suspend_member-members f org user days admin w a m b c e s n i)
      (elim (Bool-cases (ltb ms (days * 86400000))) [
        | inl y ↦ rw y (
            find_member-suspended org user (w.now + ms) (w.now + days * day) w.members
              (ground arith))
        | inr y ↦ rw y (
            find_member-elapsed org user (w.now + ms) (w.now + days * day) w.members m
              (ground arith) i)
      ])

find_member-user :
    (org caller now : ℕ) (l : List OrgMember) (m : OrgMember)
    → find_member org caller now l ≡ some m
    → m.user_id ≡ caller
unfolding find_member
find_member-user org caller now [] m e = ground arith
find_member-user org caller now (x ∷ l) m e = ground (arith, find_member-user org caller now l m)

list_members-outsider :
    (f : Faults) (org caller limit offset : ℕ) (w : Directory)
    → acts_as_admin org caller w ≡ false
    → (list_members f org caller limit offset w ≡ none)
      ⊎ ((l : List OrgMember) × (list_members f org caller limit offset w ≡ some (l, 1))
          × All (λ (m : OrgMember). m.user_id ≡ caller) l)
unfolding list_members acts_as_admin
list_members-outsider f org caller limit offset w h = elim (Bool-cases f.find_member) [
  | inl b ↦ inl (rw (b, list_members) refl)
  | inr b ↦ elim (Option-cases (find_member org caller w.now w.members)) [
    | inl n ↦ inl (rw (b, n, list_members) refl)
    | inr (m, n) ↦
        let a = find_member-outsider org caller w.now w.members m h n in
        elim (Bool-cases (ltb 0 offset)) [
          | inl o ↦ inr ([], rw (b, n, a, o, list_members) refl, tt)
          | inr o ↦ inr (
            m ∷ [],
            rw (b, n, a, o, list_members) refl,
            (find_member-user org caller w.now w.members m n, tt),
          )
        ]
  ]
]

-- What `ListMembers` shows someone who is no admin holds no row of anyone else.
pub list_members_private :
    (f : Faults) (org caller limit offset total : ℕ) (w : Directory) (l : List OrgMember)
    → acts_as_admin org caller w ≡ false
    → list_members f org caller limit offset w ≡ some (l, total)
    → All (λ (m : OrgMember). m.user_id ≡ caller) l
list_members_private f org caller limit offset total w l h e =
    elim (list_members-outsider f org caller limit offset w h) [
      | inl n ↦ let c = sym n ∙ e in ground (arith, c)
      | inr (k, s, own) ↦
          subst (All (λ (m : OrgMember). m.user_id ≡ caller))
            (ap (λ (q : List OrgMember × ℕ). q.0) (some-injective (k, 1) (l, total) (sym s ∙ e)))
            own
    ]
