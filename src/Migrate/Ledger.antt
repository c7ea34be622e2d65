-- ===== src/Migrate/Ledger.antt =====
-- What the record of a migration may hold: which call is allowed after which events. The children
-- carry this through each step of the orchestrator.
pub mod Defs
pub mod Rules
pub mod Looking
pub mod Building
pub mod Rest
pub mod Finishing
pub mod Whole
