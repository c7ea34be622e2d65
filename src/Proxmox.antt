-- ===== src/Proxmox.antt =====
-- backend/phif/connectors/proxmox/connector.py: the connector of a Proxmox VE cluster.
pub mod Names
pub mod Session
pub mod Nodes
pub mod Machines
pub mod Capture
pub mod Disks
pub mod Create
pub mod Volumes
mod Retry
pub mod Fresh
pub mod Nets
pub mod Doing
pub mod Reading
pub mod Refusal
mod Trial
pub mod Setup
pub mod DryRun
pub mod Preflight
