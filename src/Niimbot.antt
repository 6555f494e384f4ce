-- ===== src/Niimbot.antt =====
-- internal/niimbot: the NIIMBOT label-printer protocol.
pub mod Packet
pub mod Commands
pub mod Client
pub mod Image
pub mod Model
pub mod Print
pub mod Rfid
pub mod Identify
