-- ===== src/Group/Final.antt =====
-- What the members of a group come to: theorems about `run_migration_group`, for all interleavings of
-- the members' coroutines.
use pure_hypervisor_integrat.Prelude.{◌≡◌, Bool, true, false, ◌⊎◌}
use pure_hypervisor_integrat.Group.Runner.{
  Member, Task, waiting, asking, skipping, launching, polling, finished, lost, Runner, terminal,
}
use pure_hypervisor_integrat.Group.Reach.{Reach}

-- whether a coroutine is at its end with its member's status written
abbrev pub ended_well : Task → Bool
ended_well waiting = false
ended_well asking = false
ended_well skipping = false
ended_well launching = false
ended_well (polling waited) = false
ended_well finished = true
ended_well lost = false

-- a member has a terminal status exactly if its coroutine is so
abbrev pub Settled : Member × Task → Type 0
Settled (m, k) = terminal m ≡ ended_well k

-- the end of a run for a member: a terminal status, or a coroutine that ended without writing it
abbrev pub Closed : Member × Task → Type 0
Closed (m, k) = (terminal m ≡ true) ⊎ ((k ≡ lost) × (terminal m ≡ false))
