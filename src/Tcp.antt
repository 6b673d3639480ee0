-- ===== src/Tcp.antt =====
-- proc/tcp: the TCP processor to the controller.
pub mod Defs
pub mod Known
pub mod Laws
