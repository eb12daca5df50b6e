-- ===== src/Server/Orgs/Keeps.antt =====
-- The admins of an organization under the operations of internal/organizations/service.go.
use iaas_platform.Base.{
  ℕ, ◌≡◌, refl, ◌∙◌, ◌⊎◌, inl, inr, true, false, Option, some, List, ◌==◌, ==_iff, Option-cases,
  Bool-cases,
}
use iaas_platform.Server.Orgs.{
  Directory, OrgMember, JoinRequest, is_admin, find_member, find_member_any, add_member,
  delete_member, set_suspended,
}
use iaas_platform.Server.Orgs.Service.{
  Faults, Error, Outcome, not_admin, refused, done, for_admin, adding, dropping, changing, reading,
  remove_member, suspend_member, unsuspend_member,
}
use iaas_platform.Server.Orgs.Admins.{
  has_admin, has_admin-add_member, has_admin-delete_member_other, has_admin-delete_member,
  has_admin-set_suspended_other, has_admin-set_suspended, has_admin-restored,
}

-- The organization has an admin in the second state if it has one in the first.
abbrev pub Keeps : ℕ → Directory → Directory → Type 0
Keeps o w v = has_admin o w.now w.members ≡ true → has_admin o v.now v.members ≡ true

pub for_admin-cases :
    (e : Error) (f : Faults) (org caller : ℕ) (w : Directory) (k : Directory × Outcome)
    → ((for_admin e f org caller w k).0 ≡ w)
      ⊎ ((for_admin e f org caller w k ≡ k)
          × (m : OrgMember) × (find_member org caller w.now w.members ≡ some m)
          × (is_admin m ≡ true))
unfolding for_admin
for_admin-cases e f org caller w k = elim (Bool-cases f.find_member) [
  | inl b ↦ inl (rw (b, for_admin) refl)
  | inr b ↦ elim (Option-cases (find_member org caller w.now w.members)) [
    | inl n ↦ inl (rw (b, n, for_admin) refl)
    | inr (m, h) ↦ elim (Bool-cases (is_admin m)) [
      | inl a ↦ inr (rw (b, h, a, for_admin) refl, m, h, a)
      | inr a ↦ inl (rw (b, h, a, for_admin) refl)
    ]
  ]
]

pub for_admin-Keeps :
    (o : ℕ) (e : Error) (f : Faults) (org caller : ℕ) (w : Directory) (k : Directory × Outcome)
    → ((m : OrgMember)
        → find_member org caller w.now w.members ≡ some m
        → is_admin m ≡ true
        → Keeps o w k.0)
    → Keeps o w (for_admin e f org caller w k).0
for_admin-Keeps o e f org caller w k h a = elim (for_admin-cases e f org caller w k) [
  | inl same ↦ rw same a
  | inr (runs, m, finds, admin) ↦ rw runs (h m finds admin a)
]

pub adding-Keeps :
    (o : ℕ) (f : Faults) (m : OrgMember) (w : Directory) (k : Directory → Directory × Outcome)
    → ((x : Directory) → Keeps o x (k x).0)
    → Keeps o w (adding f m w k).0
unfolding adding
adding-Keeps o f m w k h a = elim (Bool-cases f.add) [
  | inl b ↦ simp (b, adding) a
  | inr b ↦ elim (Option-cases (add_member m w.members)) [
    | inl n ↦ simp (b, n, adding) a
    | inr (l, e) ↦
        simp (b, e, adding)
          (h (record w { members = l }) (has_admin-add_member o w.now m w.members l e a))
  ]
]

pub dropping-Keeps :
    (o : ℕ) (f : Faults) (org user : ℕ) (w : Directory) (k : Directory → Directory × Outcome)
    → ((l : List JoinRequest) → Keeps o w (k (record w { requests = l })).0)
    → Keeps o w (dropping f org user w k).0
unfolding dropping
dropping-Keeps o f org user w k h a = elim (Bool-cases f.delete_request) [
  | inl b ↦ simp (b, dropping) a
  | inr b ↦ simp (b, dropping) (h _ a)
]

changing-Keeps :
    (o : ℕ) (f : Faults) (org user : ℕ) (w : Directory) (l : List OrgMember)
    → (has_admin o w.now w.members ≡ true → has_admin o w.now l ≡ true)
    → Keeps o w (changing f org user w l).0
unfolding changing
changing-Keeps o f org user w l h a = elim (Bool-cases f.change) [
  | inl b ↦ simp (b, changing) a
  | inr b ↦ elim (Option-cases (find_member_any org user w.members)) [
    | inl n ↦ simp (b, n, changing) a
    | inr (m, e) ↦ simp (b, e, changing) (h a)
  ]
]

reading-Keeps :
    (o : ℕ) (f : Faults) (w : Directory) (v : Directory × Outcome)
    → Keeps o w v.0
    → Keeps o w (reading f v).0
reading-Keeps o f w (v, refused e) h = h
reading-Keeps o f w (v, done) h = elim (Bool-cases f.find_any) [
  | inl b ↦ simp b h
  | inr b ↦ simp b h
]

delete-Keeps :
    (o org user admin : ℕ) (now : ℕ) (l : List OrgMember) (m : OrgMember)
    → find_member org admin now l ≡ some m
    → is_admin m ≡ true
    → (user == admin) ≡ false
    → has_admin o now l ≡ true
    → has_admin o now (delete_member org user l) ≡ true
delete-Keeps o org user admin now l m e a n h = elim (Bool-cases (o == org)) [
  | inr d ↦ has_admin-delete_member_other o org user now l d ∙ h
  | inl s ↦ rw ((==_iff o org).0 s) (has_admin-delete_member org user admin now l m e a n)
]

suspend-Keeps :
    (o org user admin : ℕ) (now : ℕ) (t : Option ℕ) (l : List OrgMember) (m : OrgMember)
    → find_member org admin now l ≡ some m
    → is_admin m ≡ true
    → (user == admin) ≡ false
    → has_admin o now l ≡ true
    → has_admin o now (set_suspended org user t l) ≡ true
suspend-Keeps o org user admin now t l m e a n h = elim (Bool-cases (o == org)) [
  | inr d ↦ has_admin-set_suspended_other o org user now t l d ∙ h
  | inl s ↦ rw ((==_iff o org).0 s) (has_admin-set_suspended org user admin now t l m e a n)
]

pub remove_member-Keeps :
    (o : ℕ) (f : Faults) (org user admin : ℕ) (w : Directory)
    → Keeps o w (remove_member f org user admin w).0
unfolding remove_member
remove_member-Keeps o f org user admin w = for_admin-Keeps o not_admin f org admin w _ (λ m e a h.
    elim (Bool-cases (user == admin)) [
      | inl s ↦ simp s h
      | inr n ↦ simp n (
          dropping-Keeps o f org user w
            (λ v. changing f org user v (delete_member org user v.members))
            (λ l.
              changing-Keeps o f org user (record w { requests = l })
                (delete_member org user w.members)
                (delete-Keeps o org user admin w.now w.members m e a n))
            h)
    ])

pub suspend_member-Keeps :
    (o : ℕ) (f : Faults) (org user days admin : ℕ) (w : Directory)
    → Keeps o w (suspend_member f org user days admin w).0
unfolding suspend_member
suspend_member-Keeps o f org user days admin w =
    for_admin-Keeps o not_admin f org admin w _ (λ m e a h. elim (Bool-cases (user == admin)) [
      | inl s ↦ simp s h
      | inr n ↦ simp n (
          reading-Keeps o f w _
            (changing-Keeps o f org user w _
              (suspend-Keeps o org user admin w.now _ w.members m e a n))
            h)
    ])

pub unsuspend_member-Keeps :
    (o : ℕ) (f : Faults) (org user admin : ℕ) (w : Directory)
    → Keeps o w (unsuspend_member f org user admin w).0
unfolding unsuspend_member
unsuspend_member-Keeps o f org user admin w = for_admin-Keeps o not_admin f org admin w _ (λ m e a.
    reading-Keeps o f w _
      (changing-Keeps o f org user w _ (has_admin-restored o org user w.now w.members)))
