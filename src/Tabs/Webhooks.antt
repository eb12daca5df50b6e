-- ===== src/Tabs/Webhooks.antt =====
-- The tab Webhooks of internal/dashboard/static/app.js, and the handlers of its buttons and form.
use iaas_platform.Base.{
  ℕ, Bool, false, not, Option, none, some, List, [], ◌∷◌, map, ◌==◌, if◌then◌else◌,
}
use iaas_platform.Base.Text.{Text, lit, is_empty, trim}
use iaas_platform.Api.{
  Webhook, Response, success, failure, Shape, as_array, list_webhooks, create_webhook, ping_webhook,
  update_webhook, delete_webhook,
}
use iaas_platform.Rows.{webhook_row}
use iaas_platform.World.{
  World, message, webhooks_tab, Kind, error, info, webhooks_done, webhook_created, webhook_tested,
  webhook_toggled, webhook_deleted, webhook_form, webhook_delete_modal,
}
use iaas_platform.World.Ops.{get_tab, set_tab, call, toast, modal, close_modal}
use iaas_platform.Tabs.Members.{after}

unfoldable pub render_webhooks_tab : World → World
unfolding get_tab set_tab call
render_webhooks_tab w = elim (get_tab w.page) [
  | none ↦ w
  | some t ↦
      call (list_webhooks w.state.current_org) (webhooks_done t)
        (set_tab t (message (lit "Loading webhooks...")) w)
]

-- A network error has no status.
abbrev pub is_forbidden : Option ℕ → Bool
is_forbidden none = false
is_forbidden (some s) = s == 403

unfoldable pub webhooks_answered : ℕ → Response (Shape Webhook) → World → World
unfolding set_tab as_array webhook_row
webhooks_answered t (failure status _) w =
    set_tab t
      (message (
        if is_forbidden status
        then lit "Only admins can manage webhooks."
        else lit "Failed to load webhooks"))
      w
webhooks_answered t (success _ body) w =
    set_tab t (webhooks_tab (map webhook_row (as_array body))) w

-- The check boxes of the form.
abbrev pub webhook_events : List Text
webhook_events =
    lit "instance.created"
    ∷ lit "instance.updated"
    ∷ lit "instance.terminated"
    ∷ lit "org.member_added"
    ∷ lit "org.member_removed"
    ∷ lit "org.member_suspended"
    ∷ lit "org.member_unsuspended"
    ∷ lit "org.join_request_accepted"
    ∷ lit "org.join_request_revoked"
    ∷ lit "billing.usage_recorded"
    ∷ lit "billing.invoice_generated"
    ∷ []

unfoldable pub show_create_webhook : World → World
unfolding modal
show_create_webhook w = modal (webhook_form webhook_events) w

-- `secret || undefined`
abbrev secret_field : Text → Option Text
secret_field s = if is_empty s then none else some s

-- The second argument holds the values of the checked boxes.
unfoldable pub create_clicked : Text → List Text → Text → World → World
unfolding trim toast call
create_clicked url events secret w =
    if is_empty (trim url) then toast (lit "Endpoint URL is required") error w else elim events [
      | [] ↦ toast (lit "Select at least one event") error w
      | e ∷ es ↦
          call (create_webhook w.state.current_org (trim url) (e ∷ es) (secret_field (trim secret)))
            webhook_created w
    ]

unfoldable pub create_answered : Response (Unit {0}) → World → World
unfolding close_modal toast render_webhooks_tab
create_answered r w =
    after r (lit "Failed to create webhook")
      (λ w. render_webhooks_tab (toast (lit "Webhook created") Kind.success w)) (close_modal w)

unfoldable pub test_webhook : ℕ → World → World
unfolding call
test_webhook id w = call (ping_webhook w.state.current_org id) webhook_tested w

unfoldable pub test_answered : Response (Unit {0}) → World → World
unfolding toast
test_answered r w =
    after r (lit "Failed to send test delivery") (λ w. toast (lit "Test delivery queued") info w) w

-- The second argument is the state that the row showed.
unfoldable pub toggle_webhook : ℕ → Bool → World → World
unfolding call
toggle_webhook id active w =
    call (update_webhook w.state.current_org id (not active)) (webhook_toggled active) w

unfoldable pub toggle_answered : Bool → Response (Unit {0}) → World → World
unfolding toast render_webhooks_tab
toggle_answered active r w =
    after r (lit "Failed to update webhook")
      (λ w.
        render_webhooks_tab
          (toast (if active then lit "Webhook disabled" else lit "Webhook enabled") Kind.success w))
      w

unfoldable pub ask_delete_webhook : ℕ → World → World
unfolding modal
ask_delete_webhook id w = modal (webhook_delete_modal id) w

unfoldable pub confirm_delete_webhook : ℕ → World → World
unfolding call
confirm_delete_webhook id w = call (delete_webhook w.state.current_org id) webhook_deleted w

unfoldable pub delete_answered : Response (Unit {0}) → World → World
unfolding toast render_webhooks_tab
delete_answered r w =
    after r (lit "Failed to delete webhook")
      (λ w. render_webhooks_tab (toast (lit "Webhook deleted") info w)) w
