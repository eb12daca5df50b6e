-- ===== src/EventLoop/Session.antt =====
-- The token in `state`, the token in `localStorage`, and the page that is shown.
use iaas_platform.Base.{ℕ, ◌≡◌, ◌≢◌, ◌⊎◌, Bool, true, false, Option, none, some, arith}
use iaas_platform.Base.Text.{Text, lit}
use iaas_platform.Api.{bearer}
use iaas_platform.World.{
  World, Page, nothing, login_page, reset_page, shell, Storage, Task, Reply, Job, remove_toast,
  refresh_detail,
}
use iaas_platform.Session.{initial, init}
use iaas_platform.EventLoop.{
  Event, back_to_sign_in, handle, resume, run_job, Step, user, answer, timeout, time, Reach, here,
  next,
}

-- The header and the pages behind the login are shown.
abbrev pub has_shell : Page → Bool
has_shell (shell _) = true
has_shell nothing = false
has_shell (login_page _) = false
has_shell reset_page = false

-- The stored token is the one in use, or the text "undefined" that is stored for a missing one.
abbrev pub InSync : Option Text → Option Text → Type 0
InSync token stored = (stored ≡ token) ⊎ ((token ≡ none) × (stored ≡ some (lit "undefined")))

pub record IsSound (w : World) : Type 0 where
  pub synced : InSync w.state.token w.storage.token
  pub guarded : has_shell w.page ≡ true → bearer w.state.token ≢ none

handle-IsSound : (e : Event) (w : World) → IsSound w → IsSound (handle e w)
unfolding handle bearer
handle-IsSound back_to_sign_in w h = ground arith
handle-IsSound _ w h = ground arith

resume-IsSound : (t : Task) (f : Reply t) (w : World) → IsSound w → IsSound (resume t f w)
unfolding resume bearer
resume-IsSound Task.forgot_done f w h = ground arith
resume-IsSound _ f w h = ground arith

run_job-IsSound : (j : Job) (w : World) → IsSound w → IsSound (run_job j w)
unfolding run_job
run_job-IsSound (remove_toast e) w h = ground arith
run_job-IsSound refresh_detail w h = ground arith

Step-IsSound : {v w : World} → Step v w → IsSound v → IsSound w
Step-IsSound (user w e) h = handle-IsSound e w h
Step-IsSound (answer w before after p f _) h =
    resume-IsSound p.task f _ (record { synced = h.synced; guarded = h.guarded })
Step-IsSound (timeout w before after t _ _) h =
    run_job-IsSound t.job _ (record { synced = h.synced; guarded = h.guarded })
Step-IsSound (time w ms) h = record { synced = h.synced; guarded = h.guarded }

Reach-IsSound_from : {v w : World} → IsSound v → Reach v w → IsSound w
Reach-IsSound_from h here = h
Reach-IsSound_from h (next r s) = Step-IsSound s (Reach-IsSound_from h r)

init-IsSound : (s : Storage) (now : ℕ) (t : Option Text) → IsSound (init t (initial s now))
unfolding init initial
init-IsSound s now none = ground arith
init-IsSound s now (some t) = ground arith

-- From a fresh start on, over every interleaving of clicks, answers and timers: the pages behind
-- the login are shown only while there is a token to send, and the stored token is the one in use,
-- or the text "undefined" in place of a missing one.
pub Reach-IsSound :
    (s : Storage) (now : ℕ) (t : Option Text) {w : World}
    → Reach (init t (initial s now)) w
    → IsSound w
Reach-IsSound s now t r = Reach-IsSound_from (init-IsSound s now t) r
