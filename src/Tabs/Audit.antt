-- ===== src/Tabs/Audit.antt =====
-- The tab Audit Log of internal/dashboard/static/app.js.
use iaas_platform.Base.{ℕ, Option, none, some, List, [], ◌∷◌, if◌then◌else◌}
use iaas_platform.Base.Text.{Text, lit, is_empty}
use iaas_platform.Api.{AuditEvent, Response, success, failure, Shape, as_array, audit}
use iaas_platform.World.{World, message, audit_tab, audit_done}
use iaas_platform.World.Ops.{get_tab, set_tab, call}
use iaas_platform.Tabs.Webhooks.{is_forbidden}

-- The choices of the filter, after "All actions".
abbrev pub audit_actions : List Text
audit_actions =
    lit "org.create"
    ∷ lit "org.member.invite"
    ∷ lit "org.member.remove"
    ∷ lit "org.member.suspend"
    ∷ lit "org.member.unsuspend"
    ∷ lit "org.join_request.accept"
    ∷ lit "org.join_request.revoke"
    ∷ lit "instance.create"
    ∷ lit "instance.start"
    ∷ lit "instance.stop"
    ∷ lit "instance.terminate"
    ∷ lit "instance.status"
    ∷ lit "billing.usage.record"
    ∷ lit "billing.invoice.generate"
    ∷ []

-- The query parameter; the empty choice sends none.
abbrev query : Text → Option Text
query action = if is_empty action then none else some action

-- `renderAuditTabWith`
unfoldable pub render_audit_tab_with : Text → World → World
unfolding get_tab set_tab call
render_audit_tab_with action w = elim (get_tab w.page) [
  | none ↦ w
  | some t ↦
      call (audit w.state.current_org (query action)) (audit_done t action)
        (set_tab t (message (lit "Loading audit trail...")) w)
]

unfoldable pub render_audit_tab : World → World
unfolding render_audit_tab_with
render_audit_tab w = render_audit_tab_with [] w

-- `filterAudit`, with the value of the select.
unfoldable pub filter_audit : Text → World → World
unfolding render_audit_tab_with
filter_audit action w = render_audit_tab_with action w

-- The template calls `auditRow` for each event. The script defines no such function, so the
-- assignment of the list throws before it takes place, unless there is no event.
unfoldable pub audit_answered : ℕ → Text → Response (Shape AuditEvent) → World → World
unfolding set_tab as_array
audit_answered t action (failure status _) w =
    set_tab t
      (message (
        if is_forbidden status
        then lit "You do not have access to the audit trail."
        else lit "Failed to load audit trail"))
      w
audit_answered t action (success _ body) w = elim (as_array body) [
  | [] ↦ set_tab t (audit_tab action) w
  | _ ∷ _ ↦ w
]
