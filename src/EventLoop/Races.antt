-- ===== src/EventLoop/Races.antt =====
-- What late answers and closed dialogs do to the page.
use iaas_platform.Base.{◌⊎◌, refl, inl, inr, ℕ, ◌≡◌, ◌≢◌, Option, List, [], ◌∷◌, ◌++◌, arith}
use iaas_platform.Base.Text.{Text, lit}
use iaas_platform.Api.{Fetched, Member, AuditEvent, Shape, settle, success, failure, as_array}
use iaas_platform.Rows.{raw}
use iaas_platform.World.{
  World, Page, shell, Shell, detail_page, OrgDetail, message, Tab, instances, members, billing,
  webhooks, audit, Task, Reply, Overlay, Kind, members_done, audit_done, member_invited,
  org_created, instance_created,
}
use iaas_platform.Tabs.{switch_tab}
use iaas_platform.Tabs.Audit.{render_audit_tab_with}
use iaas_platform.EventLoop.{resume}

-- The page of an organization, as it stands in the document.
abbrev pub detail_shell : Shell → OrgDetail → Page
detail_shell s d = shell (record s { main = detail_page d })

-- The answer for the tab Members is written over whatever tab was opened while it was awaited: if
-- the request fails, its message stands under the other tab's heading.
pub members_done-after_switch :
    (w : World) (s : Shell) (d : OrgDetail) (u : Tab) (f : Fetched (Shape Member))
    (status : Option ℕ) (e : Text)
    → w.page ≡ detail_shell s d
    → settle f ≡ failure status e
    → (resume (members_done d.tab_id) f (switch_tab u w)).page
      ≡ detail_shell s (record d { active_tab = u; tab = message (lit "Failed to load members") })
unfolding resume switch_tab
members_done-after_switch w s d instances f status e here fails = ground arith
members_done-after_switch w s d members f status e here fails = ground arith
members_done-after_switch w s d billing f status e here fails = ground arith
members_done-after_switch w s d webhooks f status e here fails = ground arith
members_done-after_switch w s d audit f status e here fails = ground arith

-- The audit trail of an organization with any recorded event never appears: the tab goes on showing
-- that it is loading, with every choice of the filter.
pub audit-stays_loading :
    (w : World) (s : Shell) (d : OrgDetail) (action : Text) (f : Fetched (Shape AuditEvent))
    (status : ℕ) (body : Shape AuditEvent)
    → w.page ≡ detail_shell s d
    → settle f ≡ success status body
    → as_array body ≢ []
    → (resume (audit_done d.tab_id action) f (render_audit_tab_with action w)).page
      ≡ detail_shell s (record d { tab = message (lit "Loading audit trail...") })
unfolding resume render_audit_tab_with
audit-stays_loading w s d action f status body here answered some_event = ground arith

-- The dialogs that stay open until the server has answered, with the toast of their success.
abbrev pub Succeeds : (t : Task) → Reply t → Text → Type 0
Succeeds (org_created _) f msg =
    ((s : ℕ) × (settle f ≡ success s tt)) × (msg ≡ lit "✅ Organization created successfully")
Succeeds (instance_created _ _ _) f msg =
    ((s : ℕ) × (settle f ≡ success s tt)) × (msg ≡ lit "✅ Instance launching...")
Succeeds (member_invited email _) f msg =
    ((s : ℕ) × (settle f ≡ success s tt)) × (msg ≡ lit "✅ Invitation sent to " ++ email)
Succeeds _ f msg = ⊥

-- The first open dialog is closed, and a toast shows the message.
abbrev pub Shown : Text → World → World → Type 0
Shown msg w w' =
    (o : Overlay) × (w.overlays ≡ o ∷ w'.overlays)
    × (w'.toasts
        ≡ w.toasts
          ++ (record { element = w.fresh; id = w.now; msg = raw msg; kind = Kind.success } ∷ []))

-- No dialog is open, and nothing is shown, asked for or set up.
abbrev pub Lost : World → World → Type 0
Lost w w' =
    (w.overlays ≡ [])
    × (w'.toasts ≡ w.toasts)
    × (w'.pending ≡ w.pending)
    × (w'.timers ≡ w.timers)
    × (w'.page ≡ w.page)

resume-Succeeds-some :
    (t : Task) (f : Reply t) (msg : Text) (w : World) (o : Overlay) (rest : List Overlay)
    → Succeeds t f msg
    → w.overlays ≡ o ∷ rest
    → Shown msg w (resume t f w)
unfolding resume
resume-Succeeds-some (org_created name) f msg w o rest ((s, h), e) k =
    (o, ground arith, ground arith)
resume-Succeeds-some (instance_created a b c) f msg w o rest ((s, h), e) k =
    (o, ground arith, ground arith)
resume-Succeeds-some (member_invited a b) f msg w o rest ((s, h), e) k =
    (o, ground arith, ground arith)
resume-Succeeds-some _ f msg w o rest h k = elim h [ ]

resume-Succeeds-none :
    (t : Task) (f : Reply t) (msg : Text) (w : World)
    → Succeeds t f msg
    → w.overlays ≡ []
    → Lost w (resume t f w)
unfolding resume
resume-Succeeds-none (org_created name) f msg w ((s, h), e) k = ground arith
resume-Succeeds-none (instance_created a b c) f msg w ((s, h), e) k = ground arith
resume-Succeeds-none (member_invited a b) f msg w ((s, h), e) k = ground arith
resume-Succeeds-none _ f msg w h k = elim h [ ]

list_cases : {A : Type 0} (l : List A) → (l ≡ []) ⊎ ((x : A) × (rest : List A) × (l ≡ x ∷ rest))
list_cases [] = inl refl
list_cases (x ∷ l) = inr (x, l, refl)

-- When the server has created an organization, launched an instance or invited a member, the first
-- open dialog is closed and the success is shown. If the user has closed every dialog by then,
-- nothing is shown, no list is asked for again and no refresh is set up.
pub resume-Succeeds :
    (t : Task) (f : Reply t) (msg : Text) (w : World)
    → Succeeds t f msg
    → Shown msg w (resume t f w) ⊎ Lost w (resume t f w)
resume-Succeeds t f msg w h = elim (list_cases w.overlays) [
  | inl empty ↦ inr (resume-Succeeds-none t f msg w h empty)
  | inr (o, rest, e) ↦ inl (resume-Succeeds-some t f msg w o rest h e)
]
