-- ===== src/Tests/Overlaps.antt =====
-- Two requests that overlap on concrete tables of the server.
use iaas_platform.Base.{◌+◌, ◌<◌, ◌≤◌, ◌≡◌, refl, true, some, [], ◌∷◌, arith}
use iaas_platform.Base.Text.{lit, text_eq}
use iaas_platform.Server.Compute.{
  Cloud, get_quota, get_region, sum_active, sum_active_by_org, sum_active_by_region, exceeds,
  default_quota,
}
use iaas_platform.Server.Compute.Service.{
  Spec, provision, insert_row, enforce_quota, enforce_capacity,
}
use iaas_platform.Server.Compute.Limits.{int_safe}
use iaas_platform.Server.Compute.Final.{no_faults}
use iaas_platform.Server.Compute.Overlapping.{
  Busy, Ticket, Overlaps, here, begins, ends, admitted, count_of,
}
use iaas_platform.Server.Compute.Overshoot.{overshoot_bounded}
use iaas_platform.Tests.Compute.{cloud}

-- An organization that may have one instance.
abbrev small : Cloud
small = record cloud {
  instances = [];
  provider = [];
  quotas = (1, record default_quota { max_instances = 1 }) ∷ [];
}

abbrev spec : Spec
spec = record {
  name = lit "db";
  instance_type = lit "vm";
  region = lit "us-east-1";
  image = lit "debian-12";
  cpu = 4;
  mem = 8192;
  disk = 10;
}

abbrev ticket : Ticket
ticket = record { org = 1; user = 1; spec = spec }

abbrev after_first : Cloud
after_first = (provision no_faults 1 1 spec (some 9) small).0

abbrev after_both : Cloud
after_both = (provision no_faults 1 1 spec (some 10) after_first).0

abbrev idle : Cloud → Busy
idle w = record { cloud = w; in_flight = [] }

both-admitted : admitted no_faults 1 spec small ≡ true
unfolding admitted enforce_quota enforce_capacity get_region get_quota sum_active_by_org
    sum_active_by_region sum_active exceeds text_eq lit
both-admitted = refl

-- Both pass their checks before either inserts its row.
both : Overlaps 2 (idle small) (idle after_both)
unfolding count_of
both =
    ends
      (ends
        (begins (begins here no_faults 1 1 spec both-admitted (omega arith)) no_faults 1 1 spec
          both-admitted (omega arith))
        no_faults (some 9) [] (ticket ∷ []) ticket refl)
      no_faults (some 10) [] [] ticket refl

-- One more than the quota.
two-active : (sum_active_by_org 1 after_both.instances).count ≡ 2
unfolding sum_active_by_org sum_active provision insert_row text_eq lit
two-active = refl

small-quota : (get_quota 1 small.quotas).max_instances ≤ int_safe
unfolding get_quota
small-quota = omega arith

none-active : (sum_active_by_org 1 small.instances).count ≤ (get_quota 1 small.quotas).max_instances
unfolding sum_active_by_org sum_active get_quota
none-active = omega arith

overshoot_bounded_example :
    (sum_active_by_org 1 after_both.instances).count
    < (get_quota 1 after_both.quotas).max_instances + 2
overshoot_bounded_example =
    overshoot_bounded 1 {most = 2} {b = idle small} {v = idle after_both} small-quota (omega arith)
      (omega arith) refl none-active both
