-- ===== src/Pages/Center/Unread.antt =====
-- Which notifications the center shows, and how dismissing one counts.
use iaas_platform.Base.{
  ℕ, ◌+◌, ◌≤◌, ◌≡◌, refl, Option, none, some, List, [], ◌∷◌, ◌++◌, arith, length, take-append_of_le,
  if◌then◌else◌, find, ◌==◌,
}
use iaas_platform.World.{Notification}
use iaas_platform.Pages.Frame.{unread_count}
use iaas_platform.Pages.Center.{center_items, mark_read}

-- Once ten notifications are kept, one that is added does not show in the center: it lists the ten
-- oldest.
pub center_items-add :
    (l : List Notification) (n : Notification)
    → 10 ≤ length l
    → center_items (l ++ (n ∷ [])) ≡ center_items l
unfolding center_items
center_items-add l n h = take-append_of_le 10 l (n ∷ []) h

abbrev pub newly_read : Option Notification → ℕ
newly_read none = 0
newly_read (some n) = if n.is_read then 0 else 1

-- Dismissing takes exactly one from the number of unread notifications if the first one with that
-- `id` is unread, and none where that one is read already or there is no such notification. The
-- list keeps its length.
pub unread_count-mark_read :
    (id : ℕ) (l : List Notification)
    → (unread_count (mark_read id l) + newly_read (find (λ (m : Notification). m.id == id) l)
        ≡ unread_count l)
      × (length (mark_read id l) ≡ length l)
unfolding unread_count mark_read
unread_count-mark_read id [] = (refl, refl)
unread_count-mark_read id (x ∷ l) =
    let (count, size) = unread_count-mark_read id l in (ground arith, ground arith)
