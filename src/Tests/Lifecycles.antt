-- ===== src/Tests/Lifecycles.antt =====
-- The statuses of the instances of the server on concrete tables.
use iaas_platform.Base.{◌≡◌, refl, some, []}
use iaas_platform.Base.Text.{lit, text_eq}
use iaas_platform.Api.{pending}
use iaas_platform.Server.{found}
use iaas_platform.Server.Compute.{Cloud, ComputeInstance, find_by_id}
use iaas_platform.Server.Compute.System.{creates, ticks, passes, move}
use iaas_platform.Server.Compute.Final.{no_faults, no_tick_faults}
use iaas_platform.Server.Compute.Runs.{begin, step}
use iaas_platform.Server.Compute.Follows.{FollowedBy, follows_the_table}
use iaas_platform.Tests.Compute.{cloud, request}

abbrev empty : Cloud
empty = record cloud { instances = []; provider = []; next_id = 1 }

abbrev asked : Cloud
asked = move (creates no_faults (found tt) 1 1 request (some 9)) empty

abbrev waited : Cloud
waited = move (passes 6000) asked

abbrev db : ComputeInstance
db = record {
  id = 1;
  organization_id = 1;
  user_id = 1;
  name = lit "db";
  instance_type = lit "vm";
  status = pending;
  region = lit "us-east-1";
  provider_id = 9;
  image = lit "debian-12";
  cpu_cores = 4;
  memory_mb = 8192;
  disk_gb = 10;
}

waited-db : find_by_id 1 waited.instances ≡ some db
unfolding move find_by_id text_eq lit
waited-db = refl

-- The pass that settles the new instance.
follows_the_table_example : FollowedBy 1 db (move (ticks no_tick_faults) waited)
follows_the_table_example =
    follows_the_table 1 db (ticks no_tick_faults) refl
      (step (step begin (creates no_faults (found tt) 1 1 request (some 9)) refl) (passes 6000) tt)
      tt waited-db
