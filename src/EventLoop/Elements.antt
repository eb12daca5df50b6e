-- ===== src/EventLoop/Elements.antt =====
-- The elements that waiting tasks hold, and what becomes of their writes on a new page.
use iaas_platform.Base.{ℕ, suc, ◌≤◌, ◌<◌, ◌≡◌, Option, none, some, List, [], ◌∷◌, ◌++◌, arith}
use iaas_platform.Base.Text.{Text}
use iaas_platform.World.{
  World, TabContent, Storage, Pending, Task, Reply, Job, remove_toast, refresh_detail,
  dashboard_orgs, dashboard_instances, dashboard_usage, orgs_done, members_done, members_requests,
  billing_usage, billing_invoices, webhooks_done, audit_done,
}
use iaas_platform.World.Ops.{get_main, get_tab, put_tab}
use iaas_platform.Api.{Org, Instance, Member, Shape, Fetched}
use iaas_platform.Pages.Orgs.{detail_members_done}
use iaas_platform.Session.{initial, init}
use iaas_platform.EventLoop.{
  Event, back_to_sign_in, handle, resume, run_job, Step, user, answer, timeout, time, Reach, here,
  next,
}

-- The element `#main` that a task holds.
abbrev pub held_main : Task → Option ℕ
held_main (dashboard_orgs m) = some m
held_main (dashboard_instances m) = some m
held_main (dashboard_usage m _ _) = some m
held_main (orgs_done m) = some m
held_main _ = none

-- The element `#tab-content` that a task holds.
abbrev pub held_tab : Task → Option ℕ
held_tab (members_done t) = some t
held_tab (members_requests t _ _ _) = some t
held_tab (billing_usage t) = some t
held_tab (billing_invoices t _) = some t
held_tab (webhooks_done t) = some t
held_tab (audit_done t _) = some t
held_tab _ = none

abbrev pub Below : ℕ → Option ℕ → Type 0
Below n none = Unit
Below n (some e) = e < n

-- No waiting task holds an element that is yet to be made.
abbrev pub HeldBelow : ℕ → List Pending → Type 0
HeldBelow n [] = Unit
HeldBelow n (p ∷ l) = Below n (held_main p.task) × Below n (held_tab p.task) × HeldBelow n l

pub record IsNumbered (w : World) : Type 0 where
  pub main : Below w.fresh (get_main w.page)
  pub tab : Below w.fresh (get_tab w.page)
  pub held : HeldBelow w.fresh w.pending

Below-mono : (n m : ℕ) (o : Option ℕ) → n ≤ m → Below n o → Below m o
Below-mono n m none le h = tt
Below-mono n m (some e) le h = omega arith

HeldBelow-mono : (n m : ℕ) (l : List Pending) → n ≤ m → HeldBelow n l → HeldBelow m l
HeldBelow-mono n m [] le h = tt
HeldBelow-mono n m (p ∷ l) le h = (
  Below-mono n m (held_main p.task) le h.0,
  Below-mono n m (held_tab p.task) le h.1,
  HeldBelow-mono n m l le h.2,
)

-- In the form that the tactics use: one or two elements more.
HeldBelow-suc : (n : ℕ) (l : List Pending) → HeldBelow n l → HeldBelow (suc n) l
HeldBelow-suc n l h = HeldBelow-mono n (suc n) l (omega arith) h

handle-IsNumbered : (e : Event) (w : World) → IsNumbered w → IsNumbered (handle e w)
unfolding handle get_main get_tab
handle-IsNumbered back_to_sign_in w h =
    ground (arith, HeldBelow-suc w.fresh w.pending, HeldBelow-suc (suc w.fresh) w.pending)
handle-IsNumbered _ w h =
    ground (arith, HeldBelow-suc w.fresh w.pending, HeldBelow-suc (suc w.fresh) w.pending)

resume-IsNumbered :
    (t : Task) (f : Reply t) (w : World)
    → Below w.fresh (held_main t)
    → Below w.fresh (held_tab t)
    → IsNumbered w
    → IsNumbered (resume t f w)
unfolding resume get_main get_tab
resume-IsNumbered Task.forgot_done f w m t h = ground (arith, HeldBelow-suc w.fresh w.pending)
resume-IsNumbered _ f w m t h =
    ground (arith, HeldBelow-suc w.fresh w.pending, HeldBelow-suc (suc w.fresh) w.pending)

run_job-IsNumbered : (j : Job) (w : World) → IsNumbered w → IsNumbered (run_job j w)
unfolding run_job get_main get_tab
run_job-IsNumbered (remove_toast e) w h = ground arith
run_job-IsNumbered refresh_detail w h = ground arith

HeldBelow-remove :
    (n : ℕ) (before : List Pending) (p : Pending) (after : List Pending)
    → HeldBelow n (before ++ (p ∷ after))
    → Below n (held_main p.task) × Below n (held_tab p.task) × HeldBelow n (before ++ after)
HeldBelow-remove n [] p after h = h
HeldBelow-remove n (q ∷ before) p after h =
    let (m, t, rest) = HeldBelow-remove n before p after h.2 in (m, t, (h.0, h.1, rest))

Step-IsNumbered : {v w : World} → Step v w → IsNumbered v → IsNumbered w
Step-IsNumbered (user w e) h = handle-IsNumbered e w h
Step-IsNumbered (answer w before after p f e) h =
    let (m, t, rest) = HeldBelow-remove w.fresh before p after (rw e at h.held) in
    resume-IsNumbered p.task f _ m t (record { main = h.main; tab = h.tab; held = rest })
Step-IsNumbered (timeout w before after t _ _) h =
    run_job-IsNumbered t.job _ (record { main = h.main; tab = h.tab; held = h.held })
Step-IsNumbered (time w ms) h = record { main = h.main; tab = h.tab; held = h.held }

Reach-IsNumbered : {v w : World} → IsNumbered v → Reach v w → IsNumbered w
Reach-IsNumbered h here = h
Reach-IsNumbered h (next r s) = Step-IsNumbered s (Reach-IsNumbered h r)

init-IsNumbered : (s : Storage) (now : ℕ) (t : Option Text) → IsNumbered (init t (initial s now))
unfolding init initial get_main get_tab
init-IsNumbered s now none = ground arith
init-IsNumbered s now (some t) = ground arith

put_tab-detail_stale :
    (t : ℕ) (c : TabContent) (org : Org) (l : List Instance) (f : Fetched (Shape Member))
    (w : World)
    → t < w.fresh
    → let w' = detail_members_done org l f w in
      ((m : ℕ) × (get_main w.page ≡ some m)) → put_tab t c w'.page ≡ w'.page
unfolding detail_members_done put_tab
put_tab-detail_stale t c org l f w h = ground arith

-- A state that is reached from a fresh start, and a task that waits in it.
module _ (s : Storage) (now : ℕ) (token : Option Text) {w : World} (before : List Pending)
    (p : Pending) (after : List Pending) (r : Reach (init token (initial s now)) w)
    (e : w.pending ≡ before ++ (p ∷ after)) where
  waiting-Below : Below w.fresh (held_main p.task) × Below w.fresh (held_tab p.task)
  waiting-Below =
      let held = (Reach-IsNumbered (init-IsNumbered s now token) r).held in
      let (main, tab, _) = HeldBelow-remove w.fresh before p after (rw e at held) in (main, tab)

  -- Once the page of an organization is made anew in the same `#main`, nothing that a task which
  -- waits in a reachable state writes into the `#tab-content` it holds is shown.
  pub detail-drops_stale :
      (t n : ℕ) (c : TabContent) (org : Org) (l : List Instance) (f : Fetched (Shape Member))
      → held_tab p.task ≡ some t
      → get_main w.page ≡ some n
      → put_tab t c (detail_members_done org l f w).page ≡ (detail_members_done org l f w).page
  detail-drops_stale t n c org l f k g =
      put_tab-detail_stale t c org l f w (rw k at waiting-Below.1) (n, g)
