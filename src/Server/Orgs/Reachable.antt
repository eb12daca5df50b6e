-- ===== src/Server/Orgs/Reachable.antt =====
-- Sequences of operations on organizations: internal/organizations/service.go.
use iaas_platform.Base.{ℕ, ◌≡◌, inl, inr, true, Option-cases, Bool-cases}
use iaas_platform.Base.Text.{Text}
use iaas_platform.Server.Orgs.{Directory, find_member_any, has_request, find_by_email, has_slug}
use iaas_platform.Server.Orgs.Service.{
  Faults, not_admin, only_admins_invite, already_member, refused, done, dropping, create,
  invite_member, accept_join_request, revoke_join_request, slug_for,
}
use iaas_platform.Server.Orgs.System.{
  Op, creates, invites, accepts, revokes, removes, suspends, unsuspends, serve, Reach, here, asks,
  waits,
}
use iaas_platform.Server.Orgs.Admins.{has_admin, has_admin-later}
use iaas_platform.Server.Orgs.Keeps.{
  Keeps, for_admin-Keeps, adding-Keeps, dropping-Keeps, remove_member-Keeps, suspend_member-Keeps,
  unsuspend_member-Keeps,
}

create-Keeps :
    (o : ℕ) (f : Faults) (lower : Text → Text) (user : ℕ) (name slug : Text) (w : Directory)
    → Keeps o w (create f lower user name slug w).0
unfolding create
create-Keeps o f lower user name slug w h =
    let s = slug_for lower name slug in
    elim (Bool-cases f.slug) [
      | inl a ↦ simp (a, create) h
      | inr a ↦ elim (Bool-cases (has_slug s w.organizations)) [
        | inl b ↦ simp (a, b, create) h
        | inr b ↦ elim (Bool-cases f.create) [
          | inl c ↦ simp (a, b, c, create) h
          | inr c ↦ simp (a, b, c, create) (adding-Keeps o f _ _ (λ x. (x, done)) (λ x k. k) h)
        ]
      ]
    ]

invite_member-Keeps :
    (o : ℕ) (f : Faults) (org caller : ℕ) (email role : Text) (w : Directory)
    → Keeps o w (invite_member f org caller email role w).0
unfolding invite_member
invite_member-Keeps o f org caller email role w =
    for_admin-Keeps o only_admins_invite f org caller w _ (λ m e a h.
      elim (Bool-cases f.find_user) [
        | inl b ↦ simp b h
        | inr b ↦ elim (Option-cases (find_by_email email w.users)) [
          | inl c ↦ simp (b, c) h
          | inr (u, c) ↦ elim (Bool-cases f.find_any) [
            | inl d ↦ simp (b, c, d) h
            | inr d ↦ elim (Option-cases (find_member_any org u.id w.members)) [
              | inr (x, n) ↦ simp (b, c, d, n) h
              | inl n ↦ simp (b, c, d, n) (adding-Keeps o f _ w (λ x. (x, done)) (λ x k. k) h)
            ]
          ]
        ]
      ])

accept_join_request-Keeps :
    (o : ℕ) (f : Faults) (org user admin : ℕ) (w : Directory)
    → Keeps o w (accept_join_request f org user admin w).0
unfolding accept_join_request
accept_join_request-Keeps o f org user admin w =
    for_admin-Keeps o not_admin f org admin w _ (λ m e a h. elim (Bool-cases f.find_request) [
      | inl b ↦ simp b h
      | inr b ↦ elim (Bool-cases (has_request org user w.requests)) [
        | inr c ↦ simp (b, c) h
        | inl c ↦ elim (Bool-cases f.find_any) [
          | inl d ↦ simp (b, c, d) h
          | inr d ↦ elim (Option-cases (find_member_any org user w.members)) [
            | inr (x, n) ↦
                simp (b, c, d, n)
                  (dropping-Keeps o f org user w (λ v. (v, refused already_member)) (λ l k. k) h)
            | inl n ↦
                simp (b, c, d, n)
                  (adding-Keeps o f _ w (λ v. dropping f org user v (λ x. (x, done)))
                    (λ x. dropping-Keeps o f org user x (λ v. (v, done)) (λ l k. k)) h)
          ]
        ]
      ]
    ])

revoke_join_request-Keeps :
    (o : ℕ) (f : Faults) (org user admin : ℕ) (w : Directory)
    → Keeps o w (revoke_join_request f org user admin w).0
unfolding revoke_join_request
revoke_join_request-Keeps o f org user admin w =
    for_admin-Keeps o not_admin f org admin w _ (λ m e a h. elim (Bool-cases f.delete_request) [
      | inl b ↦ simp b h
      | inr b ↦ elim (Bool-cases (has_request org user w.requests)) [
        | inl c ↦ simp (b, c) h
        | inr c ↦ simp (b, c) h
      ]
    ])

serve-Keeps :
    (o : ℕ) (f : Faults) (caller : ℕ) (op : Op) (w : Directory) → Keeps o w (serve f caller op w)
unfolding serve
serve-Keeps o f caller (creates lower name slug) w = create-Keeps o f lower caller name slug w
serve-Keeps o f caller (invites org email role) w = invite_member-Keeps o f org caller email role w
serve-Keeps o f caller (accepts org user) w = accept_join_request-Keeps o f org user caller w
serve-Keeps o f caller (revokes org user) w = revoke_join_request-Keeps o f org user caller w
serve-Keeps o f caller (removes org user) w = remove_member-Keeps o f org user caller w
serve-Keeps o f caller (suspends org user days) w = suspend_member-Keeps o f org user days caller w
serve-Keeps o f caller (unsuspends org user) w = unsuspend_member-Keeps o f org user caller w

-- An organization that has an admin who is not suspended has one after every sequence of operations
-- of any users on any organizations and any delays, one after the other, whichever calls of the
-- database fail.
pub always_an_admin :
    (o : ℕ) {w v : Directory}
    → has_admin o w.now w.members ≡ true
    → Reach w v
    → has_admin o v.now v.members ≡ true
always_an_admin o h here = h
always_an_admin o h (asks {v} r f caller op) = serve-Keeps o f caller op v (always_an_admin o h r)
always_an_admin o h (waits {v} r ms) = has_admin-later o v.now ms v.members (always_an_admin o h r)
