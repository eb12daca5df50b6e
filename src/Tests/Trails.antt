-- ===== src/Tests/Trails.antt =====
-- The audit trail and the metrics of the server on concrete data.
use iaas_platform.Base.{
  ℕ, ◌+◌, ◌%◌, ◌≡◌, ◌⊎◌, refl, none, some, [], ◌∷◌, All, map, length, leb, false, List,
}
use iaas_platform.Base.Text.{lit, show}
use iaas_platform.Server.{found}
use iaas_platform.Server.Audit.{AuditEvent, AuditFilter, Trail, Faults, list}
use iaas_platform.Server.Audit.Scoped.{handed_out, list_scoped}
use iaas_platform.Server.Metrics.{
  Float, uint64_range, bucket_line, label_pair, label_string, escape_label, replace_all, join,
}
use iaas_platform.Server.Metrics.Counts.{observe_all, values_below, fresh_sample, histogram_counts}

abbrev own : AuditEvent
own = record {
  id = 1;
  organization_id = some 1;
  user_id = some 7;
  action = lit "instance.start";
  resource_id = lit "5";
  created_at = 10;
}

abbrev foreign : AuditEvent
foreign = record own { id = 2; user_id = some 8; created_at = 20 }

abbrev trail : Trail
trail = record { events = own ∷ foreign ∷ []; next_id = 3; now = 30 }

-- A member asks for the events of another.
abbrev filter : AuditFilter
filter = record {
  user_id = some 8;
  action = [];
  resource = [];
  since = none;
  limit = 50;
  offset = 0;
}

abbrev no_faults : Faults
no_faults = record { list = false; count = false }

list_scoped_example :
    All
      (λ (e : AuditEvent). e.organization_id ≡ some 1)
      (handed_out (list no_faults (found (lit "member")) 1 7 filter trail))
    × ((found (lit "member") ≡ found (lit "admin"))
        ⊎ All
            (λ (e : AuditEvent). e.user_id ≡ some 7)
            (handed_out (list no_faults (found (lit "member")) 1 7 filter trail)))
list_scoped_example = list_scoped no_faults (found (lit "member")) 1 7 filter trail

abbrev whole : Float ℕ
whole = record { plus = λ a b. a + b; at_most = leb; format = show }

abbrev buckets : List ℕ
buckets = 5 ∷ 10 ∷ []

abbrev seen : List ℕ
seen = 3 ∷ 12 ∷ 7 ∷ 5 ∷ []

histogram_counts_example :
    ((observe_all whole buckets seen (fresh_sample whole [] 0 buckets)).bucket_counts
      ≡ map (λ b. values_below whole b seen % uint64_range) buckets)
    × ((observe_all whole buckets seen (fresh_sample whole [] 0 buckets)).count
        ≡ length seen % uint64_range)
histogram_counts_example = histogram_counts whole buckets seen [] 0

-- The labels of a bucket stand in braces of their own.
line_of_bucket :
    bucket_line whole (lit "d") (label_pair (lit "m") (lit "GET") ∷ []) (lit "5") 2
    ≡ lit "d_bucket{{m=\"GET\"}le=\"5\"} 2\n"
unfolding bucket_line label_pair label_string escape_label replace_all join lit show
line_of_bucket = refl
