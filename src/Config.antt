-- ===== src/Config.antt =====
-- config: the services that the proxy depends on, with their configurations and endpoints, as a
-- dynamic source tells of them, and the events that follow.
pub mod Defs
