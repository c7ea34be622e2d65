-- ===== src/Migrate.antt =====
-- backend/phif/migrate: the cold migration of a VM between two hypervisors.
pub mod Spec
pub mod Dicts
pub mod RoundTrip
pub mod World
pub mod Act
pub mod Service
pub mod Preflight
pub mod Destination
pub mod Disks
pub mod Power
pub mod Finish
pub mod Fresh
pub mod Steps
pub mod Run
pub mod Yields
pub mod Ledger
pub mod Safety
pub mod Outcome
mod Examples
