-- ===== src/Api.antt =====
-- backend/phif/api/migrations.py: the requests that start and stop migrations and groups of them.
pub mod Http
pub mod Pairs
pub mod Destinations
pub mod Migrations
pub mod Agreement
pub mod Single
pub mod Acceptance
pub mod Groups
pub mod Lifecycle
pub mod Closing
pub mod Closed
mod Trial
