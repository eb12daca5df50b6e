-- ===== src/Server/Orgs/System.antt =====
-- The operations on organizations as they follow each other, with the clock.
use iaas_platform.Base.{ℕ, ◌+◌}
use iaas_platform.Base.Text.{Text}
use iaas_platform.Server.Orgs.{Directory}
use iaas_platform.Server.Orgs.Service.{
  Faults, create, invite_member, accept_join_request, revoke_join_request, remove_member,
  suspend_member, unsuspend_member,
}

pub data Op : Type 0 where
  creates : (Text → Text) → Text → Text → Op
  invites : ℕ → Text → Text → Op
  accepts revokes removes unsuspends : ℕ → ℕ → Op
  suspends : ℕ → ℕ → ℕ → Op

-- An operation that a user asks for.
unfoldable pub serve : Faults → ℕ → Op → Directory → Directory
unfolding create invite_member accept_join_request revoke_join_request remove_member suspend_member
    unsuspend_member
serve f caller (creates lower name slug) w = (create f lower caller name slug w).0
serve f caller (invites org email role) w = (invite_member f org caller email role w).0
serve f caller (accepts org user) w = (accept_join_request f org user caller w).0
serve f caller (revokes org user) w = (revoke_join_request f org user caller w).0
serve f caller (removes org user) w = (remove_member f org user caller w).0
serve f caller (suspends org user days) w = (suspend_member f org user days caller w).0
serve f caller (unsuspends org user) w = (unsuspend_member f org user caller w).0

pub data Reach (w : Directory) : Directory → Type 0 where
  here : Reach w w
  asks :
      {v : Directory}
      → Reach w v
      → (f : Faults) (caller : ℕ) (o : Op) → Reach w (serve f caller o v)
  waits : {v : Directory} → Reach w v → (ms : ℕ) → Reach w (record v { now = v.now + ms })
