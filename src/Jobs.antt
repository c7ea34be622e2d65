-- ===== src/Jobs.antt =====
-- The jobs of the backend: backend/phif/jobs/manager.py and backend/phif/jobs/reconcile.py.
pub mod Manager
pub mod Reconcile
pub mod Log
pub mod Restart
pub mod Settings
pub mod Monitor
pub mod Watching
pub mod Scheduler
pub mod Runners
pub mod Passes
mod Rounds
mod Passing
mod Trial
