-- ===== src/Bridge.antt =====
-- internal/bridge: the service between the connection, the queue and the printers.
pub mod Records
pub mod State
pub mod Messages
pub mod Discovery
pub mod Turns
