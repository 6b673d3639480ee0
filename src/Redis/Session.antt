-- ===== src/Redis/Session.antt =====
-- proc/redis/session.go: a connection of a client of the proxy, with a reader that hands requests on
-- and a writer that answers them, interleaved with those who respond to requests.
pub mod Defs
pub mod Order
mod Tests
