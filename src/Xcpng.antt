-- ===== src/Xcpng.antt =====
-- backend/phif/connectors/xcpng/connector.py: the connector of an XCP-ng pool.
pub mod Records
pub mod Grouping
pub mod Machines
pub mod Capture
pub mod Pool
pub mod Creation
pub mod Disks
pub mod Removal
pub mod Sparing
mod Trial
