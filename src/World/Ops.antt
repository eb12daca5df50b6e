-- ===== src/World/Ops.antt =====
-- Reading and writing the parts of the world: the document's elements, the overlays, `api`, and the
-- notification and activity lists of internal/dashboard/static/app.js.
use iaas_platform.Base.{ℕ, suc, ◌+◌, false, not, Option, none, some, List, [], ◌∷◌, ◌++◌}
use iaas_platform.Base.{length, pop, keep, ltb, ◌==◌, if◌then◌else◌}
use iaas_platform.Base.Text.{Text, lit, or_text}
use iaas_platform.Api.{User, Endpoint, bearer}
use iaas_platform.Rows.{raw}
use iaas_platform.World.{
  State, World, Page, nothing, login_page, reset_page, shell, MainContent, blank, notice,
  dashboard_page, orgs_page, detail_page, settings_page, TabContent, LogEntry, Kind, remove_toast,
  Task, Modal, Toast,
}

-- The first toast with this `id` in the document goes.
unfoldable pub without_first : ℕ → List Toast → List Toast
without_first id [] = []
without_first id (t ∷ l) = let rest = without_first id l in if t.id == id then l else t ∷ rest

-- The button of a toast: `document.getElementById('notif-…').remove()`
unfoldable pub close_toast : ℕ → World → World
unfolding without_first
close_toast id w = record w { toasts = without_first id w.toasts }

-- `document.getElementById('main')`
unfoldable pub get_main : Page → Option ℕ
get_main (shell s) = some s.main_id
get_main nothing = none
get_main (login_page _) = none
get_main reset_page = none

abbrev tab_of : MainContent → Option ℕ
tab_of (detail_page d) = some d.tab_id
tab_of blank = none
tab_of (notice _) = none
tab_of (dashboard_page _) = none
tab_of (orgs_page _) = none
tab_of (settings_page _) = none

-- `document.getElementById('tab-content')`
unfoldable pub get_tab : Page → Option ℕ
get_tab (shell s) = tab_of s.main
get_tab nothing = none
get_tab (login_page _) = none
get_tab reset_page = none

-- `main.innerHTML = …` for the element `m`.
unfoldable pub put_main : ℕ → MainContent → Page → Page
put_main m c (shell s) = if s.main_id == m then shell (record s { main = c }) else shell s
put_main m c nothing = nothing
put_main m c (login_page f) = login_page f
put_main m c reset_page = reset_page

abbrev put_tab_in : ℕ → TabContent → MainContent → MainContent
put_tab_in t c (detail_page d) =
    if d.tab_id == t then detail_page (record d { tab = c }) else detail_page d
put_tab_in t c blank = blank
put_tab_in t c (notice x) = notice x
put_tab_in t c (dashboard_page x) = dashboard_page x
put_tab_in t c (orgs_page x) = orgs_page x
put_tab_in t c (settings_page x) = settings_page x

-- The same for an element `#tab-content`.
unfoldable pub put_tab : ℕ → TabContent → Page → Page
put_tab t c (shell s) = shell (record s { main = put_tab_in t c s.main })
put_tab t c nothing = nothing
put_tab t c (login_page f) = login_page f
put_tab t c reset_page = reset_page

unfoldable pub set_main : ℕ → MainContent → World → World
unfolding put_main
set_main m c w = record w { page = put_main m c w.page }

unfoldable pub set_tab : ℕ → TabContent → World → World
unfolding put_tab
set_tab t c w = record w { page = put_tab t c w.page }

abbrev pub set_state : State → World → World
set_state s w = record w { state = s }

-- `api(…)`, up to its answer.
unfoldable pub call : Endpoint → Task → World → World
unfolding bearer
call e t w = record w {
  pending =
      record {
        requests = record { endpoint = e; authorization = bearer w.state.token } ∷ [];
        task = t;
      }
      ∷ w.pending;
}

-- The second argument is milliseconds; 0 sets no timer.
unfoldable pub notify : Text → Kind → ℕ → World → World
notify msg kind duration w = record w {
  state = record (w.state) {
    notifications =
        w.state.notifications
        ++ (record { id = w.now; msg = msg; kind = kind; timestamp = w.now; is_read = false } ∷ []);
  };
  toasts = w.toasts ++ (record { element = w.fresh; id = w.now; msg = raw msg; kind = kind } ∷ []);
  timers =
      if duration == 0
      then w.timers
      else record { due = w.now + duration; job = remove_toast w.fresh } ∷ w.timers;
  fresh = suc w.fresh;
}

unfoldable pub toast : Text → Kind → World → World
unfolding notify
toast msg kind w = notify msg kind 3000 w

-- `modal(html)`: a new overlay at the end of the body.
unfoldable pub modal : Modal → World → World
modal m w = record w {
  overlays = w.overlays ++ (record { element = w.fresh; modal = m } ∷ []);
  fresh = suc w.fresh;
}

-- `document.querySelector('.modal-overlay')?.remove()`
unfoldable pub close_modal : World → World
close_modal w = record w { overlays = elim w.overlays [ [] ↦ [] | _ ∷ rest ↦ rest ] }

-- The overlay's own click handler and the buttons Cancel and Close.
unfoldable pub remove_overlay : ℕ → World → World
remove_overlay e w = record w { overlays = keep (λ o. not (o.element == e)) w.overlays }

abbrev pub user_name : Option User → Text
user_name none = lit "System"
user_name (some u) = or_text u.email (lit "System")

-- `unshift(entry)`, and `pop()` if there are more than fifty.
unfoldable pub push_entry : LogEntry → List LogEntry → List LogEntry
push_entry e l = if ltb 50 (length (e ∷ l)) then pop (e ∷ l) else e ∷ l

unfoldable pub add_activity_log : Text → Text → World → World
add_activity_log action details w = record w {
  state = record (w.state) {
    activity_log =
        push_entry
          (record {
            id = w.now;
            action = action;
            details = details;
            timestamp = w.now;
            user = user_name w.state.user;
          })
          w.state.activity_log;
  };
}
