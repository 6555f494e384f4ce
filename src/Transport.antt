-- ===== src/Transport.antt =====
-- internal/transport: the connection to the service.
pub mod Backoff
pub mod Outbox
pub mod Client
