-- ===== src/Controller.antt =====
-- controller: the processors of the services, driven by the events of the configuration.
pub mod Defs
pub mod Hosts
pub mod Endpoints
pub mod Sync
pub mod Calls
pub mod Populate
pub mod Follow
mod Tests
