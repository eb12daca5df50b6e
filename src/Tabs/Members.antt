-- ===== src/Tabs/Members.antt =====
-- The tab Members of internal/dashboard/static/app.js, and the handlers of its buttons and forms.
pub mod Suspend
pub mod Table
use iaas_platform.Base.{
  ℕ, ◌-◌, ◌≡◌, Bool, true, false, not, ◌&&◌, Option, none, some, List, [], ◌∷◌, ◌++◌, map, any,
  keep, find, leb, ◌==◌, opt_eq, if◌then◌else◌,
}
use iaas_platform.Base.Text.{
  Text, lit, text_eq, is_empty, or_text, trim, has_at, ℤ, pos, negsuc, parse_int, show,
}
use iaas_platform.Api.{
  User, Member, JoinRequest, Fetched, Response, success, failure, Shape, as_array, settle,
  list_members, list_requests, accept_request, revoke_request, remove_member, suspend_member,
  unsuspend_member, invite_member,
}
use iaas_platform.Rows.{
  Markup, raw, escaped, MemberRow, member_row, gray, active, days_left, expiring_soon, Call,
}
use iaas_platform.World.{
  State, World, BannerRow, RequestRow, MembersTab, message, members_tab, Kind, error, info, Task,
  members_done, members_requests, join_accepted, join_revoked, member_removed, member_suspended,
  member_unsuspended, member_invited, remove_member_modal, suspend_form, invite_form,
}
use iaas_platform.World.Ops.{get_tab, set_tab, call, toast, modal, close_modal, add_activity_log}

-- Without `#tab-content` it throws.
unfoldable pub render_members_tab : World → World
unfolding get_tab set_tab call
render_members_tab w = elim (get_tab w.page) [
  | none ↦ w
  | some t ↦
      call (list_members w.state.current_org) (members_done t)
        (set_tab t (message (lit "Loading...")) w)
]

-- `state.user?.id`
abbrev pub id_of : Option User → Option ℕ
id_of none = none
id_of (some u) = some u.id

unfoldable pub viewer_is_admin : Option ℕ → List Member → Bool
unfolding text_eq
viewer_is_admin me l = any (λ m. opt_eq (some m.user_id) me && text_eq m.role (lit "admin")) l

unfoldable pub expiring_members : List Member → ℕ → List Member
unfolding expiring_soon
expiring_members l now = keep (λ m. expiring_soon m.suspended_until now) l

abbrev ms_left : Option ℕ → ℕ → ℕ
ms_left none now = 0
ms_left (some until) now = until - now

unfoldable pub banner_row : ℕ → Member → BannerRow
unfolding days_left
banner_row now m = record {
  name = escaped (or_text m.name (lit "User"));
  days = days_left (ms_left m.suspended_until now);
  email = escaped m.email;
  click = Call.unsuspend_member m.user_id;
}

-- `reminderBanner`: it is left out where this list is empty.
unfoldable pub reminder_banner : List Member → Bool → ℕ → List BannerRow
unfolding expiring_members banner_row
reminder_banner l is_admin now =
    if is_admin then map (banner_row now) (expiring_members l now) else []

unfoldable pub request_row : JoinRequest → RequestRow
request_row r = record {
  name = escaped r.name;
  email = escaped r.email;
  created = r.created_at;
  user_id = r.user_id;
}

-- The row of `{ user_id: me, role: 'member' }`, for a viewer who is not in the list.
unfoldable pub stub_row : Option ℕ → MemberRow
stub_row me = record {
  highlighted = false;
  name = escaped (lit "User");
  is_me = true;
  email = escaped [];
  user_id = me;
  role = raw (lit "member");
  role_class = gray;
  cell = active;
  joined = none;
  actions = [];
}

-- The row of `meMember`, the viewer's own entry or the one that stands in for it.
unfoldable pub own_row : List Member → Option ℕ → ℕ → MemberRow
unfolding member_row stub_row
own_row l me now = elim (find (λ m. opt_eq (some m.user_id) me) l) [
  | none ↦ stub_row me
  | some m ↦ member_row m false me now
]

-- `teamTable`: an admin sees every member, anybody else the row of the viewer.
unfoldable pub team_rows : List Member → Bool → Option ℕ → ℕ → List MemberRow
unfolding member_row own_row
team_rows l is_admin me now =
    if is_admin then map (λ m. member_row m is_admin me now) l else own_row l me now ∷ []

-- The last assignment of `renderMembersTab`.
unfoldable pub show_members :
    ℕ → List Member → Option ℕ → Bool → List BannerRow → List JoinRequest → World → World
unfolding set_tab request_row team_rows
show_members t l me is_admin banner requests w =
    set_tab t
      (members_tab (record {
        banner = banner;
        requests = map request_row requests;
        is_admin = is_admin;
        rows = team_rows l is_admin me w.now;
      }))
      w

-- Only an admin's tab asks for the join requests.
unfoldable pub ask_requests : ℕ → List Member → Option ℕ → World → World
unfolding viewer_is_admin reminder_banner call show_members
ask_requests t l me w =
    if viewer_is_admin me l
    then call (list_requests w.state.current_org)
        (members_requests t l me (reminder_banner l true w.now)) w
    else show_members t l me false (reminder_banner l false w.now) [] w

unfoldable pub members_answered : ℕ → Response (Shape Member) → World → World
unfolding set_tab as_array ask_requests
members_answered t (failure _ _) w = set_tab t (message (lit "Failed to load members")) w
members_answered t (success _ body) w = ask_requests t (as_array body) (id_of w.state.user) w

unfoldable pub loaded_requests : Fetched (Shape JoinRequest) → List JoinRequest
unfolding settle as_array
loaded_requests f = elim (settle f) [ success _ v ↦ as_array v | failure _ _ ↦ [] ]

unfoldable pub requests_answered :
    ℕ → List Member → Option ℕ → List BannerRow → Fetched (Shape JoinRequest) → World → World
unfolding loaded_requests show_members
requests_answered t l me banner f w = show_members t l me true banner (loaded_requests f) w

-- The shape that most answers are handled in: a toast with the server's error or the given text,
-- or a toast and the tab anew.
abbrev pub after : Response (Unit {0}) → Text → (World → World) → World → World
after (failure _ e) text k w = toast (or_text e text) error w
after (success _ _) text k w = k w

unfoldable pub accept_join_request : ℕ → World → World
unfolding call
accept_join_request user w = call (accept_request w.state.current_org user) join_accepted w

unfoldable pub accept_answered : Response (Unit {0}) → World → World
unfolding toast render_members_tab
accept_answered r w =
    after r (lit "Failed to accept request")
      (λ w. render_members_tab (toast (lit "Join request accepted") Kind.success w)) w

unfoldable pub revoke_join_request : ℕ → World → World
unfolding call
revoke_join_request user w = call (revoke_request w.state.current_org user) join_revoked w

unfoldable pub revoke_answered : Response (Unit {0}) → World → World
unfolding toast render_members_tab
revoke_answered r w =
    after r (lit "Failed to revoke request")
      (λ w. render_members_tab (toast (lit "Join request revoked") info w)) w

-- `removeMember`
unfoldable pub ask_remove_member : ℕ → World → World
unfolding modal
ask_remove_member user w = modal (remove_member_modal user) w

unfoldable pub confirm_remove_member : ℕ → World → World
unfolding call
confirm_remove_member user w = call (remove_member w.state.current_org user) member_removed w

unfoldable pub remove_answered : Response (Unit {0}) → World → World
unfolding toast render_members_tab
remove_answered r w =
    after r (lit "Failed to revoke access")
      (λ w. render_members_tab (toast (lit "Member access revoked") info w)) w

unfoldable pub show_suspend_member : ℕ → World → World
unfolding modal
show_suspend_member user w = modal (suspend_form user) w

-- `!days || days < 1 || days > 365` refuses, anything else passes.
unfoldable pub valid_days : Option ℤ → Option ℕ
valid_days none = none
valid_days (some (negsuc n)) = none
valid_days (some (pos n)) = if leb 1 n && leb n 365 then some n else none

unfoldable pub confirm_suspend_member : ℕ → Text → World → World
unfolding valid_days parse_int toast call
confirm_suspend_member user input w = elim (valid_days (parse_int input)) [
  | none ↦ toast (lit "Enter a suspension length between 1 and 365 days") error w
  | some days ↦ call (suspend_member w.state.current_org user days) (member_suspended user days) w
]

-- `${days} day${days === 1 ? '' : 's'}`
unfoldable pub days_text : ℕ → Text
unfolding show
days_text n = show n ++ (if n == 1 then lit " day" else lit " days")

unfoldable pub suspend_answered : ℕ → ℕ → Response (Unit {0}) → World → World
unfolding close_modal toast render_members_tab add_activity_log days_text show
suspend_answered user days r w =
    after r (lit "Failed to suspend member")
      (λ w. render_members_tab (
        toast (lit "Member suspended for " ++ days_text days) Kind.success (
          add_activity_log (lit "member.suspend")
            (lit "Suspended member #" ++ (show user ++ (lit " for " ++ days_text days))) w)))
      (close_modal w)

-- `unsuspendMember`
unfoldable pub lift_suspension : ℕ → World → World
unfolding call
lift_suspension user w =
    call (unsuspend_member w.state.current_org user) (member_unsuspended user) w

unfoldable pub unsuspend_answered : ℕ → Response (Unit {0}) → World → World
unfolding toast render_members_tab add_activity_log show
unsuspend_answered user r w =
    after r (lit "Failed to unsuspend member")
      (λ w. render_members_tab (
        toast (lit "Member access restored") Kind.success (
          add_activity_log (lit "member.unsuspend")
            (lit "Restored access for member #" ++ show user) w)))
      w

unfoldable pub show_invite_member : World → World
unfolding modal
show_invite_member w = modal invite_form w

unfoldable pub invite_clicked : Text → Text → World → World
unfolding trim has_at toast call
invite_clicked input role w =
    let email = trim input in
    if is_empty email
    then toast (lit "Email is required") error w
    else if not (has_at email)
    then toast (lit "Please enter a valid email") error w
    else if is_empty role
    then toast (lit "Role is required") error w
    else call (invite_member w.state.current_org email role) (member_invited email role) w

-- `document.querySelector('.modal-overlay').remove()` throws where no overlay is left.
abbrev pub close_or_throw : (World → World) → World → World
close_or_throw k w = elim w.overlays [ [] ↦ w | _ ∷ _ ↦ k (close_modal w) ]

unfoldable pub invite_answered : Text → Text → Response (Unit {0}) → World → World
unfolding toast render_members_tab add_activity_log close_modal
invite_answered email role r w =
    after r (lit "Failed to send invitation")
      (λ w.
        close_or_throw
          (λ w. render_members_tab (toast (lit "✅ Invitation sent to " ++ email) Kind.success w))
          (add_activity_log (lit "member.invite")
            (lit "Invited " ++ (email ++ (lit " as " ++ role))) w))
      w
