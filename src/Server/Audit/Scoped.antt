-- ===== src/Server/Audit/Scoped.antt =====
-- Who sees which events: `List` of internal/audit/service.go.
use iaas_platform.Base.{
  ℕ, zero, suc, ◌≡◌, ap, ◌⊎◌, inl, inr, Bool, true, Option, none, some, List, [], ◌∷◌, All, keep,
  take, arith, Bool-cases,
}
use iaas_platform.Base.Text.{Text, lit, text_eq}
use iaas_platform.Base.Text.Laws.{text_eq_iff}
use iaas_platform.Server.{Lookup, found, missing, broken}
use iaas_platform.Server.Audit.{
  AuditEvent, AuditFilter, Trail, Faults, Result, ok, refused, same_id, selects, comes_first,
  insert_event, newest_first, skip, list_where, list,
}

module _ {ℓ} (P : AuditEvent → Type ℓ) where
  All-insert_event :
      (e : AuditEvent) (l : List AuditEvent) → P e → All P l → All P (insert_event e l)
  unfolding insert_event
  All-insert_event e [] a h = (a, tt)
  All-insert_event e (d ∷ l) a (b, h) = elim (Bool-cases (comes_first e d)) [
    | inl c ↦ simp c (a, (b, h))
    | inr c ↦ simp c (b, All-insert_event e l a h)
  ]

  All-newest_first : (l : List AuditEvent) → All P l → All P (newest_first l)
  unfolding newest_first
  All-newest_first [] h = tt
  All-newest_first (e ∷ l) (a, h) = All-insert_event e (newest_first l) a (All-newest_first l h)

  All-skip : (n : ℕ) (l : List AuditEvent) → All P l → All P (skip n l)
  unfolding skip
  All-skip zero l h = h
  All-skip (suc n) [] h = tt
  All-skip (suc n) (e ∷ l) (a, h) = All-skip n l h

  All-take : (n : ℕ) (l : List AuditEvent) → All P l → All P (take n l)
  All-take zero l h = tt
  All-take (suc n) [] h = tt
  All-take (suc n) (e ∷ l) (a, h) = (a, All-take n l h)

  All-keep :
      (p : AuditEvent → Bool) (l : List AuditEvent)
      → ((e : AuditEvent) → p e ≡ true → P e)
      → All P (keep p l)
  All-keep p [] h = tt
  All-keep p (e ∷ l) h = elim (Bool-cases (p e)) [
    | inl c ↦ simp c (h e c, All-keep p l h)
    | inr c ↦ simp c (All-keep p l h)
  ]

-- The events that an answer hands out.
abbrev pub handed_out : Result (List AuditEvent × ℕ) → List AuditEvent
handed_out (ok (l, n)) = l
handed_out (refused e) = []

list_where-All :
    (P : AuditEvent → Type 0) (f : Faults) (org : ℕ) (q : AuditFilter) (w : Trail)
    → ((e : AuditEvent) → selects org q e ≡ true → P e)
    → All P (handed_out (list_where f org q w))
unfolding list_where
list_where-All P f org q w h = elim (Bool-cases f.list) [
  | inl a ↦ simp a tt
  | inr a ↦ elim (Bool-cases f.count) [
    | inl b ↦ simp (a, b) tt
    | inr b ↦
        simp (a, b)
          (All-take P q.limit _
            (All-skip P q.offset _ (All-newest_first P _ (All-keep P (selects org q) w.events h))))
  ]
]

same_id-some : (n : ℕ) (o : Option ℕ) → same_id n o ≡ true → o ≡ some n
same_id-some n none h = ground (arith, h)
same_id-some n (some m) h = ground (arith, h)

selects-org :
    (org : ℕ) (q : AuditFilter) (e : AuditEvent)
    → selects org q e ≡ true
    → e.organization_id ≡ some org
unfolding selects
selects-org org q e h = same_id-some org e.organization_id (ground (arith, h))

selects-user :
    (org user : ℕ) (q : AuditFilter) (e : AuditEvent)
    → selects org (record q { user_id = some user }) e ≡ true
    → e.user_id ≡ some user
unfolding selects
selects-user org user q e h = same_id-some user e.user_id (ground (arith, h))

-- Whatever filter is asked for, the audit trail hands out only events of the organization, and to a
-- caller who is no admin of it only events of their own; to someone who is no member, or is suspended,
-- it hands out none.
pub list_scoped :
    (f : Faults) (m : Lookup Text) (org user : ℕ) (q : AuditFilter) (w : Trail)
    → All (λ (e : AuditEvent). e.organization_id ≡ some org) (handed_out (list f m org user q w))
      × ((m ≡ found (lit "admin"))
          ⊎ All (λ (e : AuditEvent). e.user_id ≡ some user) (handed_out (list f m org user q w)))
unfolding list
list_scoped f missing org user q w = (tt, inr tt)
list_scoped f broken org user q w = (tt, inr tt)
list_scoped f (found role) org user q w = elim (Bool-cases (text_eq role (lit "admin"))) [
  | inl a ↦ (
    simp a (
        list_where-All (λ e. e.organization_id ≡ some org) f org q w
          (λ e h. selects-org org q e h)),
    inl (ap found ((text_eq_iff role (lit "admin")).0 a)),
  )
  | inr a ↦
      let own : AuditFilter = record q { user_id = some user } in
      (
        simp a (
            list_where-All (λ e. e.organization_id ≡ some org) f org own w
              (λ e h. selects-org org own e h)),
        inr (
            simp a (
              list_where-All (λ e. e.user_id ≡ some user) f org own w
                (λ e h. selects-user org user q e h))),
      )
]
