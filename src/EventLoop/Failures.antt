-- ===== src/EventLoop/Failures.antt =====
-- What the page does with the server's refusals, and with answers that have no body.
use iaas_platform.Base.{ℕ, ◌+◌, ◌≡◌, Option, List, [], ◌∷◌, ◌++◌, arith}
use iaas_platform.Base.Text.{Text, lit, or_text}
use iaas_platform.Api.{Fetched, failure, settle}
use iaas_platform.Rows.{raw}
use iaas_platform.World.{
  World, Task, Reply, Overlay, remove_toast, error, forgot_done, reset_done, join_accepted,
  join_revoked, member_removed, member_suspended, member_unsuspended, member_invited,
  webhook_created, webhook_tested, webhook_deleted, webhook_toggled, org_created, instance_created,
  action_done,
}
use iaas_platform.EventLoop.{resume}

-- The tasks of the requests that ask the server to do something and whose answer is not read, with
-- the message for a failure that brings no text. Any other task has the empty message.
abbrev pub command_message : Task → Text
command_message forgot_done = lit "Request failed"
command_message reset_done = lit "Reset failed"
command_message join_accepted = lit "Failed to accept request"
command_message join_revoked = lit "Failed to revoke request"
command_message member_removed = lit "Failed to revoke access"
command_message (member_suspended _ _) = lit "Failed to suspend member"
command_message (member_unsuspended _) = lit "Failed to unsuspend member"
command_message (member_invited _ _) = lit "Failed to send invitation"
command_message webhook_created = lit "Failed to create webhook"
command_message webhook_tested = lit "Failed to send test delivery"
command_message webhook_deleted = lit "Failed to delete webhook"
command_message (webhook_toggled _) = lit "Failed to update webhook"
command_message (org_created _) = lit "Failed to create organization"
command_message (instance_created _ _ _) = lit "Failed to launch instance"
command_message (action_done _ _) = lit "Action failed"
command_message _ = []

abbrev Fails : Fetched (Unit {0}) → Text → Type 0
Fails f e = (status : Option ℕ) × (settle f ≡ failure status e)

-- The answer to such a command comes to a failure with the text `e`.
abbrev pub CommandFails : (t : Task) → Reply t → Text → Type 0
CommandFails forgot_done f e = Fails f e
CommandFails reset_done f e = Fails f e
CommandFails join_accepted f e = Fails f e
CommandFails join_revoked f e = Fails f e
CommandFails member_removed f e = Fails f e
CommandFails (member_suspended _ _) f e = Fails f e
CommandFails (member_unsuspended _) f e = Fails f e
CommandFails (member_invited _ _) f e = Fails f e
CommandFails webhook_created f e = Fails f e
CommandFails webhook_tested f e = Fails f e
CommandFails webhook_deleted f e = Fails f e
CommandFails (webhook_toggled _) f e = Fails f e
CommandFails (org_created _) f e = Fails f e
CommandFails (instance_created _ _ _) f e = Fails f e
CommandFails (action_done _ _) f e = Fails f e
CommandFails _ f e = ⊥

-- The dialogs that are left: two of the commands close the first one before they look at the answer.
abbrev pub still_open : Task → List Overlay → List Overlay
still_open (member_suspended _ _) os = elim os [ [] ↦ [] | _ ∷ rest ↦ rest ]
still_open webhook_created os = elim os [ [] ↦ [] | _ ∷ rest ↦ rest ]
still_open _ os = os

-- A toast with `msg`, unescaped, with its timer is all that a failed command adds: no request
-- follows, and of the state only the notifications change.
pub record IsReported (t : Task) (msg : Text) (w w' : World) : Type 0 where
  pub overlays : w'.overlays ≡ still_open t w.overlays
  pub timers : w'.timers ≡ record { due = w.now + 3000; job = remove_toast w.fresh } ∷ w.timers
  pub token : w'.state.token ≡ w.state.token
  pub user : w'.state.user ≡ w.state.user
  pub view : w'.state.view ≡ w.state.view
  pub settings : w'.state.settings ≡ w.state.settings
  pub toasts :
      w'.toasts
      ≡ w.toasts ++ (record { element = w.fresh; id = w.now; msg = raw msg; kind = error } ∷ [])
  pub pending : w'.pending ≡ w.pending
  pub page : w'.page ≡ w.page
  pub log : w'.state.activity_log ≡ w.state.activity_log
  pub orgs : w'.state.orgs ≡ w.state.orgs
  pub instances : w'.state.instances ≡ w.state.instances
  pub current_org : w'.state.current_org ≡ w.state.current_org
  pub storage : w'.storage ≡ w.storage

-- Whatever command the server refuses, or whatever its answer lacks: one toast shows the failure for
-- three seconds, with the server's text or with the command's own message if there is none. No
-- request follows, the page and the storage stay, of the state only the notifications change, and
-- of the dialogs only the first one is closed, by a suspension and a new webhook.
pub resume-CommandFails :
    (t : Task) (f : Reply t) (e : Text) (w : World)
    → CommandFails t f e
    → IsReported t (or_text e (command_message t)) w (resume t f w)
unfolding resume
resume-CommandFails forgot_done f e w (status, h) = ground arith
resume-CommandFails reset_done f e w (status, h) = ground arith
resume-CommandFails join_accepted f e w (status, h) = ground arith
resume-CommandFails join_revoked f e w (status, h) = ground arith
resume-CommandFails member_removed f e w (status, h) = ground arith
resume-CommandFails (member_suspended a b) f e w (status, h) = ground arith
resume-CommandFails (member_unsuspended a) f e w (status, h) = ground arith
resume-CommandFails (member_invited a b) f e w (status, h) = ground arith
resume-CommandFails webhook_created f e w (status, h) = ground arith
resume-CommandFails webhook_tested f e w (status, h) = ground arith
resume-CommandFails webhook_deleted f e w (status, h) = ground arith
resume-CommandFails (webhook_toggled a) f e w (status, h) = ground arith
resume-CommandFails (org_created a) f e w (status, h) = ground arith
resume-CommandFails (instance_created a b c) f e w (status, h) = ground arith
resume-CommandFails (action_done a b) f e w (status, h) = ground arith
resume-CommandFails _ f e w h = elim h [ ]
