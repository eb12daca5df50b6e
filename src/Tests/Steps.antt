-- ===== src/Tests/Steps.antt =====
-- Requests, toasts and tabs after steps from the start.
use iaas_platform.Base.{◌≡◌, ◌≢◌, refl, none, some, List, [], ◌∷◌, ◌++◌, All}
use iaas_platform.Base.Text.{lit}
use iaas_platform.Api.{bearer, settle, failure, Fetched, Shape, Webhook, other}
use iaas_platform.World.{
  World, Toast, Timer, Job, remove_toast, Pending, error, webhooks_done, message,
}
use iaas_platform.World.Ops.{put_tab}
use iaas_platform.Rows.{raw}
use iaas_platform.Session.{initial, init}
use iaas_platform.EventLoop.{handle, resume, run_job, user, here, next, log_in, forgot}
use iaas_platform.EventLoop.Requests.{SendsOnce, Waits, Step-SendsOnce}
use iaas_platform.EventLoop.Toasts.{Reach-toasts_expire}
use iaas_platform.EventLoop.Races.{detail_shell}
use iaas_platform.EventLoop.Reads.{failed_page, resume-ReadFails}
use iaas_platform.Tests.Data.{refusal, empty_storage, start, frame, acme_page}

abbrev asked : World
asked = handle (log_in (lit "ann@x") (lit "secret")) start

Step-SendsOnce_example :
    (rest : List Pending) × Waits rest start
    × SendsOnce (bearer asked.state.token) rest asked.pending
Step-SendsOnce_example = Step-SendsOnce (user start (log_in (lit "ann@x") (lit "secret")))

-- The form for a forgotten password was sent without an address.
abbrev refused : World
refused = handle (forgot []) start

abbrev complaint : Toast
complaint = record { element = 0; id = 0; msg = raw (lit "Enter your email"); kind = error }

refused-toasts : refused.toasts ≡ [] ++ (complaint ∷ [])
unfolding handle init initial
refused-toasts = refl

Reach-toasts_expire_example :
    let job : Job = remove_toast 0 in
    (before : List Timer) × (after : List Timer) × (refused.timers
      ≡ before ++ (record { due = 3000; job = job } ∷ after))
    × All (λ (y : Toast). y.element ≢ 0) (run_job job refused).toasts
Reach-toasts_expire_example =
    Reach-toasts_expire empty_storage 0 none [] complaint [] (next here (user start (forgot [])))
      refused-toasts

abbrev on_tab : World
on_tab = record start { page = detail_shell frame acme_page }

abbrev not_admin : Fetched (Shape Webhook)
not_admin = refusal 403 (lit "not an admin") other

forbidden : settle not_admin ≡ failure (some 403) (lit "not an admin")
unfolding settle
forbidden = refl

resume-ReadFails_example :
    resume (webhooks_done 1) not_admin on_tab
    ≡ record on_tab { page = failed_page (webhooks_done 1) (some 403) on_tab.page }
resume-ReadFails_example =
    resume-ReadFails (webhooks_done 1) not_admin (some 403) on_tab (lit "not an admin", forbidden)

no_admin_page :
    failed_page (webhooks_done 1) (some 403) on_tab.page
    ≡ detail_shell frame
        (record acme_page { tab = message (lit "Only admins can manage webhooks.") })
unfolding put_tab
no_admin_page = refl
