-- ===== src/Cinder.antt =====
-- backend/phif/connectors/openstack: the FlashArray backend in cinder.conf.
pub mod Stanza
mod Trial
