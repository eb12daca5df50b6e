-- ===== src/Rows/Members.antt =====
-- What a member's row says of a suspension.
use iaas_platform.Base.{
  ℕ, ◌-◌, ◌*◌, ◌≤◌, ◌<◌, ◌≡◌, ◌≢◌, ◌↔◌, ◌⊎◌, Bool, true, false, Option, none, some, [], ◌∷◌, arith,
}
use iaas_platform.Api.{Member}
use iaas_platform.Rows.{
  day_ms, suspension_reminder_days, days_left, StatusCell, active, auto_restored, ends_in,
  suspended_to, status_cell, expiring_soon, member_row, unsuspend_member, show_suspend_member,
  remove_member,
}

-- `daysLeft` is at least 1, and for a positive time it is the least number of days that cover it.
pub days_left_least :
    (ms : ℕ)
    → 0 < ms
    → (1 ≤ days_left ms) × (ms ≤ days_left ms * day_ms) × ((days_left ms - 1) * day_ms < ms)
unfolding days_left
days_left_least ms h = ground arith

-- The cell counts down, from the two days of the reminder to one, exactly when the row is
-- highlighted.
pub ends_in_iff_expiring_soon :
    (until : Option ℕ) (now : ℕ)
    → ((n : ℕ) × (status_cell until now ≡ ends_in n) × (1 ≤ n) × (n ≤ suspension_reminder_days))
      ↔ (expiring_soon until now ≡ true)
unfolding status_cell expiring_soon days_left
ends_in_iff_expiring_soon none now = ground arith
ends_in_iff_expiring_soon (some until) now = (
  λ (n, e, lo, hi). ground arith,
  λ h. (days_left (until - now), ground arith, ground arith, ground arith),
)

-- The suspension still runs: the cell counts down or names the end.
abbrev pub ShowsSuspended : StatusCell → Type 0
ShowsSuspended active = ⊥
ShowsSuspended auto_restored = ⊥
ShowsSuspended (ends_in _) = Unit
ShowsSuspended (suspended_to _) = Unit

-- An admin has two buttons in the row of anybody else: the second removes the member, and the
-- first lifts the suspension if the row's cell shows one that still runs, and suspends the member
-- if the cell shows none. The row of the viewer, and every row shown to a member who is no admin,
-- has no button.
pub member_row-actions :
    (m : Member) (is_admin : Bool) (me : Option ℕ) (now : ℕ)
    → let row = member_row m is_admin me now in
      ((is_admin ≡ true)
        × (some m.user_id ≢ me)
        × ShowsSuspended row.cell
        × (row.actions ≡ unsuspend_member m.user_id ∷ remove_member m.user_id ∷ []))
      ⊎ ((is_admin ≡ true)
          × (some m.user_id ≢ me)
          × (¬ ShowsSuspended row.cell)
          × (row.actions ≡ show_suspend_member m.user_id ∷ remove_member m.user_id ∷ []))
      ⊎ (((is_admin ≡ false) ⊎ (some m.user_id ≡ me)) × (row.actions ≡ []))
unfolding member_row
member_row-actions m is_admin me now = ground arith
