-- ===== src/EventLoop/Requests.antt =====
-- Which requests a handler sends, and with which token.
use iaas_platform.Base.{ℕ, ◌≡◌, ◌⊎◌, inl, inr, refl, Option, some, List, [], ◌∷◌, ◌++◌, map, arith}
use iaas_platform.Base.Text.{Text}
use iaas_platform.Api.{bearer, settle, Org, Shape, Response, success, failure, list_instances}
use iaas_platform.World.{World, Pending, Request, Task, Reply, Job, remove_toast, refresh_detail}
use iaas_platform.EventLoop.{
  Event, handle, resume, run_job, back_to_sign_in, Step, user, answer, timeout, time,
}
use iaas_platform.Pages.Dashboard.{ask_instances, dashboard_orgs_done}

abbrev pub Carry : Option Text → List Request → Type 0
Carry auth [] = Unit
Carry auth (r ∷ l) = (r.authorization ≡ auth) × Carry auth l

-- At most one call is added to the waiting ones, and its requests all carry `auth`.
abbrev pub SendsOnce : Option Text → List Pending → List Pending → Type 0
SendsOnce auth old new = (new ≡ old) ⊎ ((p : Pending) × (new ≡ p ∷ old) × Carry auth p.requests)

handle-SendsOnce :
    (e : Event) (w : World)
    → SendsOnce (bearer (handle e w).state.token) w.pending (handle e w).pending
unfolding handle bearer
handle-SendsOnce back_to_sign_in w = ground arith
handle-SendsOnce _ w = ground arith

map-Carry :
    (auth : Option Text) (l : List Org)
    → Carry auth (
        map (λ (x : Org). record { endpoint = list_instances (some x.id); authorization = auth }) l)
map-Carry auth [] = tt
map-Carry auth (x ∷ l) = (refl, map-Carry auth l)

ask_instances-SendsOnce :
    (m : ℕ) (w : World) → SendsOnce (bearer w.state.token) w.pending (ask_instances m w).pending
unfolding ask_instances bearer
ask_instances-SendsOnce m w = ground (arith, map-Carry (bearer w.state.token) w.state.orgs)

dashboard_orgs_done-SendsOnce :
    (m : ℕ) (r : Response (Shape Org)) (w : World)
    → SendsOnce (bearer w.state.token) w.pending (dashboard_orgs_done m r w).pending
unfolding dashboard_orgs_done
dashboard_orgs_done-SendsOnce m (failure _ _) w = inl refl
dashboard_orgs_done-SendsOnce m (success _ body) w = ask_instances-SendsOnce m _

dashboard_orgs_done-token :
    (m : ℕ) (r : Response (Shape Org)) (w : World)
    → (dashboard_orgs_done m r w).state.token ≡ w.state.token
unfolding dashboard_orgs_done ask_instances
dashboard_orgs_done-token m r w = ground arith

resume-SendsOnce :
    (t : Task) (f : Reply t) (w : World)
    → SendsOnce (bearer (resume t f w).state.token) w.pending (resume t f w).pending
unfolding resume bearer
resume-SendsOnce (Task.dashboard_orgs m) f w =
    rw dashboard_orgs_done-token (dashboard_orgs_done-SendsOnce m (settle f) w)
resume-SendsOnce Task.forgot_done f w = ground arith
resume-SendsOnce _ f w = ground arith

run_job-SendsOnce :
    (j : Job) (w : World)
    → SendsOnce (bearer (run_job j w).state.token) w.pending (run_job j w).pending
unfolding run_job bearer
run_job-SendsOnce (remove_toast e) w = ground arith
run_job-SendsOnce refresh_detail w = ground arith

-- `rest` is what waits in `v` besides a call that is answered.
abbrev pub Waits : List Pending → World → Type 0
Waits rest v =
    (rest ≡ v.pending)
    ⊎ ((before : List Pending) × (after : List Pending) × (p : Pending) × (v.pending
          ≡ before ++ (p ∷ after))
        × (rest ≡ before ++ after))

-- In every step of the page, of a click, an answer or a timer, at most one call is made, and all
-- its requests carry the token that is in use after the step, or none if there is none.
pub Step-SendsOnce :
    {v w : World}
    → Step v w
    → (rest : List Pending) × Waits rest v × SendsOnce (bearer w.state.token) rest w.pending
Step-SendsOnce (user v e) = (v.pending, inl refl, handle-SendsOnce e v)
Step-SendsOnce (answer v before after p f e) =
    (before ++ after, inr (before, after, p, e, refl), resume-SendsOnce p.task f _)
Step-SendsOnce (timeout v before after t _ _) = (v.pending, inl refl, run_job-SendsOnce t.job _)
Step-SendsOnce (time v ms) = (v.pending, inl refl, inl refl)
