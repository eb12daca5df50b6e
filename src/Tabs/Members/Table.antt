-- ===== src/Tabs/Members/Table.antt =====
-- What the tab Members shows to an admin and to anybody else.
use iaas_platform.Base.{
  ℕ, ◌≡◌, refl, inl, inr, true, false, Option, none, some, List, [], ◌∷◌, map, keep, arith,
  Option-cases, find, find-eq-some, opt_eq,
}
use iaas_platform.Api.{Member}
use iaas_platform.Rows.{Call, MemberRow, ends_in, StatusCell}
use iaas_platform.World.{World, BannerRow, members_tab}
use iaas_platform.World.Ops.{set_tab}
use iaas_platform.Tabs.Members.{viewer_is_admin, reminder_banner, team_rows, own_row, ask_requests}

-- What a row of the table says that a line of the banner says too: the name, the address, the cell
-- and the member to whom the button belongs.
abbrev pub row_summary : MemberRow → Option ℕ × StatusCell
row_summary r = (r.user_id, r.cell)

abbrev member_of : Call → Option ℕ
member_of (Call.unsuspend_member u) = some u
member_of _ = none

abbrev pub line_summary : BannerRow → Option ℕ × StatusCell
line_summary b = (member_of b.click, ends_in b.days)

-- At one moment the banner has a line for each highlighted row of an admin's table, in that order,
-- with the days that the row's cell counts, and its button lifts the suspension of that member.
pub banner-eq-highlighted_rows :
    (l : List Member) (me : Option ℕ) (now : ℕ)
    → map line_summary (reminder_banner l true now)
      ≡ map row_summary (keep (λ (r : MemberRow). r.highlighted) (team_rows l true me now))
unfolding reminder_banner team_rows
banner-eq-highlighted_rows [] me now = refl
banner-eq-highlighted_rows (m ∷ l) me now = ground (arith, banner-eq-highlighted_rows l me now)

own_row-is_me :
    (l : List Member) (me : Option ℕ) (now : ℕ)
    → ((own_row l me now).is_me ≡ true) × ((own_row l me now).actions ≡ [])
unfolding own_row
own_row-is_me l me now = elim (Option-cases (find (λ m. opt_eq (some m.user_id) me) l)) [
  | inl absent ↦ rw (absent, own_row) (refl, refl)
  | inr (m, found) ↦
      let mine = find-eq-some (λ (m : Member). opt_eq (some m.user_id) me) l m found in
      rw (found, own_row) (mine, ground arith)
]

-- A viewer who is not listed as an admin sees a table of one row, without buttons, and no banner,
-- and the tab asks for no join requests.
pub ask_requests-not_admin :
    (t : ℕ) (l : List Member) (me : Option ℕ) (w : World)
    → viewer_is_admin me l ≡ false
    → (row : MemberRow) × (ask_requests t l me w
        ≡ set_tab t
            (members_tab (record { banner = []; requests = []; is_admin = false; rows = row ∷ [] }))
            w)
      × (row.actions ≡ [])
      × (row.is_me ≡ true)
unfolding ask_requests
ask_requests-not_admin t l me w h =
    let (mine, quiet) = own_row-is_me l me w.now in (own_row l me w.now, ground arith, quiet, mine)
