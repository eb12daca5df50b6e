-- ===== src/Server.antt =====
-- The server, internal/: the control plane of the instances, the organizations, and the services
-- around them. Each service is modelled over the tables that it reads and writes.
pub mod Compute
pub mod Orgs
pub mod Webhooks
pub mod RateLimiter
pub mod Auth
pub mod Paging
pub mod Billing
pub mod Validate
pub mod Audit
pub mod Metrics

-- What a query for one row comes to: a row, `ErrNotFound`, or another error.
pub data Lookup (A : Type 0) : Type 0 where
  found : A → Lookup A
  missing broken : Lookup A
