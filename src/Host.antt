-- ===== src/Host.antt =====
-- What the connectors send to a host: backend/phif/connectors/multipath.py and iscsi_net.py.
pub mod Nics
pub mod Multipath
pub mod Commands
mod Trial
