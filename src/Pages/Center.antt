-- ===== src/Pages/Center.antt =====
-- The notification center of internal/dashboard/static/app.js.
pub mod Unread
use iaas_platform.Base.{
  ℕ, true, false, Option, none, some, List, [], ◌∷◌, take, ◌==◌, if◌then◌else◌,
}
use iaas_platform.World.{World, Notification, Page, shell, Center}

-- `renderNotificationCenter`: the first ten of the list.
unfoldable pub center_items : List Notification → List Notification
center_items l = take 10 l

abbrev with_center : Center → Page → Page
with_center c p = elim p [ shell s ↦ shell (record s { center = c }) | other ↦ other ]

abbrev center_of : Page → Option Center
center_of p = elim p [ shell s ↦ some s.center | _ ↦ none ]

-- It throws where there is no center to fill.
unfoldable pub render_notification_center : World → World
unfolding center_items
render_notification_center w = elim (center_of w.page) [
  | none ↦ w
  | some c ↦ record w {
    page = with_center (record c { items = center_items w.state.notifications }) w.page;
  }
]

unfoldable pub toggle_notification_center : World → World
unfolding center_items
toggle_notification_center w = elim (center_of w.page) [
  | none ↦ w
  | some c ↦
      if c.is_open
      then record w { page = with_center (record c { is_open = false }) w.page }
      else record w {
        page =
            with_center (record { is_open = true; items = center_items w.state.notifications })
              w.page;
      }
]

-- `find` and `notif.read = true`: the first notification with that `id` is marked.
unfoldable pub mark_read : ℕ → List Notification → List Notification
mark_read id [] = []
mark_read id (n ∷ l) = if n.id == id then record n { is_read = true } ∷ l else n ∷ mark_read id l

unfoldable pub dismiss_notification : ℕ → World → World
unfolding mark_read render_notification_center
dismiss_notification id w =
    render_notification_center
      (record w { state = record (w.state) { notifications = mark_read id w.state.notifications } })

unfoldable pub clear_all_notifications : World → World
unfolding render_notification_center
clear_all_notifications w =
    render_notification_center (record w { state = record (w.state) { notifications = [] } })
