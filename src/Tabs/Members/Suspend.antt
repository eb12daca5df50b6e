-- ===== src/Tabs/Members/Suspend.antt =====
-- The suspension dialog: what is sent, and what is refused.
use iaas_platform.Base.{
  ◌⊎◌, refl, ℕ, ◌≤◌, ◌≡◌, ◌↔◌, inl, inr, Option, none, some, arith, Option-cases,
}
use iaas_platform.Base.Text.{Text, lit, ℤ, pos, negsuc, parse_int, show}
use iaas_platform.Base.Text.Laws.{parse_int-show}
use iaas_platform.Api.{suspend_member}
use iaas_platform.World.{World, error, member_suspended}
use iaas_platform.World.Ops.{call, toast}
use iaas_platform.Tabs.Members.{valid_days, confirm_suspend_member}

valid_days_iff :
    (input : Option ℤ) (n : ℕ)
    → (valid_days input ≡ some n) ↔ ((input ≡ some (pos n)) × (1 ≤ n) × (n ≤ 365))
unfolding valid_days
valid_days_iff none n = ground arith
valid_days_iff (some (pos m)) n = ground arith
valid_days_iff (some (negsuc m)) n = ground arith

-- The dialog sends the number that `parseInt` reads from the input if it lies between 1 and 365, to
-- the current organization and for the chosen member. For any other input, also one that is no
-- number, it sends nothing and shows the error.
pub confirm_suspend_member_cases :
    (user : ℕ) (input : Text) (w : World)
    → ((n : ℕ) × (parse_int input ≡ some (pos n))
        × (1 ≤ n)
        × (n ≤ 365)
        × (confirm_suspend_member user input w
            ≡ call (suspend_member w.state.current_org user n) (member_suspended user n) w))
      ⊎ ((¬ ((n : ℕ) × (parse_int input ≡ some (pos n)) × (1 ≤ n) × (n ≤ 365)))
          × (confirm_suspend_member user input w
              ≡ toast (lit "Enter a suspension length between 1 and 365 days") error w))
unfolding confirm_suspend_member
confirm_suspend_member_cases user input w = elim (Option-cases (valid_days (parse_int input))) [
  | inl refused ↦ inr (
    λ (n, e, lo, hi). let sent = (valid_days_iff (parse_int input) n).1 (e, lo, hi) in ground arith,
    rw (refused, confirm_suspend_member) refl,
  )
  | inr (n, sent) ↦
      let (e, lo, hi) = (valid_days_iff (parse_int input) n).0 sent in
      inl (n, e, lo, hi, rw (sent, confirm_suspend_member) refl)
]

-- A number of days between 1 and 365, typed as it is printed, is sent as it is.
pub confirm_suspend_member-show :
    (user n : ℕ) (w : World)
    → 1 ≤ n
    → n ≤ 365
    → confirm_suspend_member user (show n) w
      ≡ call (suspend_member w.state.current_org user n) (member_suspended user n) w
unfolding confirm_suspend_member
confirm_suspend_member-show user n w lo hi =
    let sent = (valid_days_iff (parse_int (show n)) n).1 (parse_int-show n, lo, hi) in
    rw (sent, confirm_suspend_member) refl
