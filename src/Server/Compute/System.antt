-- ===== src/Server/Compute/System.antt =====
-- The control plane as a whole: the requests of members, the reconciler's ticks and the clock, in
-- any order and with any failures.
use iaas_platform.Base.{ℕ, ◌+◌, Option}
use iaas_platform.Api.{Action}
use iaas_platform.Server.{Lookup}
use iaas_platform.Server.Compute.{Cloud}
use iaas_platform.Server.Compute.Service.{Faults, CreateInstanceRequest, create, act}
use iaas_platform.Server.Compute.Reconciler.{TickFaults, tick}

pub data Move : Type 0 where
  creates : Faults → Lookup (Unit {0}) → ℕ → ℕ → CreateInstanceRequest → Option ℕ → Move
  acts : Faults → Lookup (Unit {0}) → Action → ℕ → ℕ → Move
  ticks : TickFaults → Move
  passes : ℕ → Move

unfoldable pub move : Move → Cloud → Cloud
unfolding create act tick
move (creates f m org user r pid) w = (create f m org user r pid w).0
move (acts f m a org id) w = (act f m a org id w).0
move (ticks f) w = (tick f w).0
move (passes ms) w = record w { now = w.now + ms }

pub data Reach (w : Cloud) : Cloud → Type 0 where
  here : Reach w w
  next : {v : Cloud} → Reach w v → (m : Move) → Reach w (move m v)
