-- ===== src/Lifecycle.antt =====
-- The lifecycle of the server, internal/compute/service.go: the transition table, and the status that
-- each of `Start`, `Stop` and `Terminate` asks for.
pub mod Offers
use iaas_platform.Base.{Bool, true, false}
use iaas_platform.Api.{
  Status, pending, running, stopping, stopped, terminating, terminated, failed, unknown, Action,
  start, stop, terminate,
}

-- `instanceTransitions[from][to]`; a status that the table lacks allows nothing.
unfoldable pub can_transition : Status → Status → Bool
can_transition pending running = true
can_transition pending terminating = true
can_transition running stopping = true
can_transition running terminating = true
can_transition stopping stopped = true
can_transition stopping terminating = true
can_transition stopped pending = true
can_transition stopped terminating = true
can_transition terminating terminated = true
can_transition failed terminating = true
can_transition _ _ = false

-- The status that each request moves an instance into.
unfoldable pub target : Action → Status
target start = pending
target stop = stopping
target terminate = terminating
