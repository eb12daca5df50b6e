-- ===== src/EventLoop/Unlisted.antt =====
-- `renderOrgs` with a selected organization that the server no longer lists.
use iaas_platform.World.{World}
