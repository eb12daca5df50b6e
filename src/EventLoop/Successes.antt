-- ===== src/EventLoop/Successes.antt =====
-- What follows the commands that reload a list: accepting or revoking a join request, revoking,
-- suspending and lifting the access of a member, and creating, switching and deleting a webhook.
use iaas_platform.Base.{ℕ, ◌≡◌, Option, [], ◌∷◌, ◌++◌, if◌then◌else◌}
use iaas_platform.Base.Text.{Text, lit}
use iaas_platform.Api.{Fetched, success, settle, bearer, Endpoint, list_members, list_webhooks}
use iaas_platform.Rows.{raw}
use iaas_platform.World.{
  World, Task, Reply, Kind, info, message, TabContent, join_accepted, join_revoked, member_removed,
  member_suspended, member_unsuspended, webhook_created, webhook_toggled, webhook_deleted,
  members_done, webhooks_done,
}
use iaas_platform.World.Ops.{put_tab}
use iaas_platform.Tabs.Members.{days_text}

-- The toast of each command's success.
abbrev pub report : Task → Text
report join_accepted = lit "Join request accepted"
report join_revoked = lit "Join request revoked"
report member_removed = lit "Member access revoked"
report (member_suspended user days) = lit "Member suspended for " ++ days_text days
report (member_unsuspended user) = lit "Member access restored"
report webhook_created = lit "Webhook created"
report (webhook_toggled active) = if active then lit "Webhook disabled" else lit "Webhook enabled"
report webhook_deleted = lit "Webhook deleted"
report _ = []

abbrev pub report_kind : Task → Kind
report_kind join_revoked = info
report_kind member_removed = info
report_kind webhook_deleted = info
report_kind _ = Kind.success

-- The list that the command changed.
abbrev pub changed : Task → Option ℕ → Endpoint
changed webhook_created org = list_webhooks org
changed (webhook_toggled _) org = list_webhooks org
changed webhook_deleted org = list_webhooks org
changed _ org = list_members org

abbrev pub reader : Task → ℕ → Task
reader webhook_created t = webhooks_done t
reader (webhook_toggled _) t = webhooks_done t
reader webhook_deleted t = webhooks_done t
reader _ t = members_done t

abbrev pub waiting : Task → TabContent
waiting webhook_created = message (lit "Loading webhooks...")
waiting (webhook_toggled _) = message (lit "Loading webhooks...")
waiting webhook_deleted = message (lit "Loading webhooks...")
waiting _ = message (lit "Loading...")

abbrev Works : Fetched (Unit {0}) → Type 0
Works f = (s : ℕ) × (settle f ≡ success s tt)

abbrev pub CommandWorks : (t : Task) → Reply t → Type 0
CommandWorks join_accepted f = Works f
CommandWorks join_revoked f = Works f
CommandWorks member_removed f = Works f
CommandWorks (member_suspended _ _) f = Works f
CommandWorks (member_unsuspended _) f = Works f
CommandWorks webhook_created f = Works f
CommandWorks (webhook_toggled _) f = Works f
CommandWorks webhook_deleted f = Works f
CommandWorks _ f = ⊥

-- The success is shown, and the changed list of the current organization is asked for with the
-- token in use, to be shown in the tab `t`, which says so until then.
pub record IsRefreshed (c : Task) (t : ℕ) (w w' : World) : Type 0 where
  pub toasts :
      w'.toasts
      ≡ w.toasts
        ++ (record { element = w.fresh; id = w.now; msg = raw (report c); kind = report_kind c }
            ∷ [])
  pub pending :
      w'.pending
      ≡ record {
        requests =
            record {
              endpoint = changed c w.state.current_org;
              authorization = bearer w.state.token;
            }
            ∷ [];
        task = reader c t;
      }
        ∷ w.pending
  pub page : w'.page ≡ put_tab t (waiting c) w.page
