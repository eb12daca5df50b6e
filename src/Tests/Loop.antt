-- ===== src/Tests/Loop.antt =====
-- The event loop at concrete data.
use iaas_platform.Base.{◌+◌, ℕ, ◌≡◌, refl, none, some, [], ◌∷◌, ◌++◌, arith}
use iaas_platform.Base.Text.{lit}
use iaas_platform.Api.{
  rejected, replied, settle, list_orgs, list_instances, list_members, stop, failure, success,
  network_error, Fetched, Member, AuditEvent, Shape, array, as_array, AuthBody, bearer,
}
use iaas_platform.World.{
  World, login_page, sign_in, Pending, Task, Tab, webhook_deleted, action_done, log_in_done,
  dashboard_orgs, orgs_done, members_done, detail_instances, detail_members,
}
use iaas_platform.World.Ops.{get_main}
use iaas_platform.Session.{initial, init}
use iaas_platform.EventLoop.{
  handle, resume, user, answer, Reach, here, next, log_in, logging_out, open_org, tab,
}
use iaas_platform.EventLoop.Log.{LogIsBounded, Reach-LogIsBounded}
use iaas_platform.EventLoop.Session.{IsSound, Reach-IsSound}
use iaas_platform.Session.{logout}
use iaas_platform.EventLoop.SignedOut.{IsSignedOut, answers, logout-Answers}
use iaas_platform.EventLoop.SignedOut
use iaas_platform.EventLoop.Failures.{IsReported, resume-CommandFails}
use iaas_platform.Tests.Data.{reply, refusal, empty_storage, start, session, acme}

abbrev asked : World
asked = handle (log_in (lit "ann@x") (lit "secret")) start

abbrev login_call : Pending
login_call = record {
  requests =
      record {
        endpoint = iaas_platform.Api.log_in (lit "ann@x") (lit "secret");
        authorization = none;
      }
      ∷ [];
  task = log_in_done;
}

-- The world after the login was answered.
abbrev inside : World
inside = resume log_in_done (reply 200 session) (record asked { pending = [] })

asked-pending : asked.pending ≡ [] ++ (login_call ∷ [])
unfolding handle init initial bearer lit
asked-pending = refl

inside-Reach : Reach start inside
unfolding handle init initial
inside-Reach =
    next (next here (user start (log_in (lit "ann@x") (lit "secret"))))
      (answer asked [] [] login_call (reply 200 session) asked-pending)

abbrev left : World
left = handle logging_out inside

Reach-IsSound_example : IsSound left
Reach-IsSound_example =
    Reach-IsSound empty_storage 0 none (next inside-Reach (user inside logging_out))

left_page : (left.page ≡ login_page sign_in) × (bearer left.state.token ≡ none)
unfolding handle resume init initial lit
left_page = (refl, refl)

Reach-LogIsBounded_example : LogIsBounded left
unfolding init initial
Reach-LogIsBounded_example =
    Reach-LogIsBounded (omega arith) (next inside-Reach (user inside logging_out))

-- The dashboard that the login opened still waits for the organizations.
abbrev orgs_call : ℕ → (ℕ → Task) → Pending
orgs_call m t = record {
  requests = record { endpoint = list_orgs; authorization = some (lit "t1") } ∷ [];
  task = t m;
}

inside-pending : inside.pending ≡ [] ++ (orgs_call 0 dashboard_orgs ∷ [])
unfolding handle resume init initial lit settle
inside-pending = refl

-- The organizations arrive after the logout.
abbrev late : World
late =
    resume (dashboard_orgs 0) (reply 200 (array (acme ∷ [])))
      (record (logout inside) { pending = []; now = (logout inside).now + 40 })

logout-Answers_example : IsSignedOut late
logout-Answers_example =
    logout-Answers inside
      (answers SignedOut.here (dashboard_orgs 0) (reply 200 (array (acme ∷ []))) [] 40 tt)

-- From there to the page of an organization, whose tab Members waits for its answer.
abbrev selected : World
selected = handle (open_org 3) inside

abbrev listed : World
listed =
    resume (orgs_done 0) (reply 200 (array (acme ∷ [])))
      (record selected { pending = orgs_call 0 dashboard_orgs ∷ [] })

abbrev instances_call : Pending
instances_call = record {
  requests = record { endpoint = list_instances (some 3); authorization = some (lit "t1") } ∷ [];
  task = detail_instances acme;
}

abbrev counted : World
counted =
    resume (detail_instances acme) (reply 200 (array []))
      (record listed { pending = orgs_call 0 dashboard_orgs ∷ [] })

abbrev members_call : Task → Pending
members_call t = record {
  requests = record { endpoint = list_members (some 3); authorization = some (lit "t1") } ∷ [];
  task = t;
}

abbrev opened : World
opened =
    resume (detail_members acme []) (reply 200 (array []))
      (record counted { pending = orgs_call 0 dashboard_orgs ∷ [] })

abbrev waiting : World
waiting = handle (tab Tab.members) opened

pendings :
    (selected.pending ≡ [] ++ (orgs_call 0 orgs_done ∷ orgs_call 0 dashboard_orgs ∷ []))
    × (listed.pending ≡ [] ++ (instances_call ∷ orgs_call 0 dashboard_orgs ∷ []))
    × (counted.pending
        ≡ [] ++ (members_call (detail_members acme []) ∷ orgs_call 0 dashboard_orgs ∷ []))
    × (waiting.pending ≡ [] ++ (members_call (members_done 1) ∷ orgs_call 0 dashboard_orgs ∷ []))
unfolding handle resume init initial lit settle
pendings = (refl, refl, refl, refl)

waiting-Reach : Reach start waiting
waiting-Reach =
    let rest = orgs_call 0 dashboard_orgs ∷ [] in
    let r = next inside-Reach (user inside (open_org 3)) in
    let r = next r (
      answer selected [] rest (orgs_call 0 orgs_done) (reply 200 (array (acme ∷ []))) pendings.0) in
    let r = next r (answer listed [] rest instances_call (reply 200 (array [])) pendings.1) in
    let r = next r (
      answer counted [] rest (members_call (detail_members acme [])) (reply 200 (array []))
        pendings.2) in
    next r (user opened (tab Tab.members))

waiting-main : get_main waiting.page ≡ some 0
unfolding handle resume init initial lit settle
waiting-main = refl

refused :
    settle (refusal 409 (lit "invalid state transition") tt)
    ≡ failure (some 409) (lit "invalid state transition")
unfolding settle
refused = refl

-- The server refuses to stop an instance.
resume-CommandFails_example :
    IsReported
      (action_done stop 5)
      (lit "invalid state transition")
      inside
      (resume (action_done stop 5) (refusal 409 (lit "invalid state transition") tt) inside)
unfolding lit
resume-CommandFails_example =
    resume-CommandFails (action_done stop 5) (refusal 409 (lit "invalid state transition") tt)
      (lit "invalid state transition") inside (some 409, refused)

-- The server deletes a webhook and answers 204 with no body: the page reports an error.
deleted_webhook :
    IsReported webhook_deleted
      (lit "Network error")
      inside
      (resume webhook_deleted (replied 204 none) inside)
unfolding lit settle
deleted_webhook =
    resume-CommandFails webhook_deleted (replied 204 none) (lit "Network error") inside (none, refl)
