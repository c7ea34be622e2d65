-- ===== src/Connector.antt =====
-- backend/phif/connectors/base.py: what all connectors share.
pub mod Registry
pub mod Readiness
pub mod Departed
pub mod Pruning
mod Trial
