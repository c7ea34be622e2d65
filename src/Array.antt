-- ===== src/Array.antt =====
-- The FlashArray client: backend/phif/flasharray/client.py.
pub mod Io
pub mod Size
pub mod Rest
pub mod HostCalls
pub mod VolumeCalls
pub mod PairCalls
pub mod Sent
pub mod VvolIds
pub mod Hosts
pub mod Mock
pub mod Volumes
pub mod MockHosts
pub mod Register
pub mod Owners
pub mod Registration
pub mod InMemory
pub mod Making
mod Trial
