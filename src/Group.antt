-- ===== src/Group.antt =====
-- Groups of migrations: `run_migration_group` of backend/phif/migrate/service.py.
pub mod Runner
pub mod Reach
pub mod Theorems
pub mod Final
pub mod Fixed
pub mod Stop
mod Trial
