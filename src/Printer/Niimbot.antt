-- ===== src/Printer/Niimbot.antt =====
-- internal/printer/niimbot.go: the driver and discoverer of NIIMBOT printers.
pub mod Device
pub mod Printing
pub mod Polling
mod Tests
